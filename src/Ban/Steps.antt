-- ===== src/Ban/Steps.antt =====
-- internal/ban/store.go: the operations that change a store, as steps. An Op is about one address;
-- a Change is any of them, UnbanCIDRs included.
use faketunnel.Base.{ℕ, Bool, true, false, Option, List, [], ◌∷◌, Bytes}
use faketunnel.Net.{Ip, IpNet}
use faketunnel.Ban.Methods.{unban_cidrs}
use faketunnel.Ban.Store.{
  Store, observe_invalid_locked, ban_permanent_locked, observe_valid_locked, unban_locked,
}

-- Each names the key of its address, and says whether the file can be written.
pub data Op : Type 0 where
  invalid : Bytes → Bytes → ℕ → Bool → Op
  probe : Bytes → Bool → Op
  valid : Bytes → Op
  unban : Bytes → Bool → Op

abbrev pub key_of : Op → Bytes
key_of (invalid key reason now writable) = key
key_of (probe key writable) = key
key_of (valid key) = key
key_of (unban key writable) = key

abbrev pub is_unban : Op → Bool
is_unban (unban key writable) = true
is_unban _ = false

unfoldable pub step : Op → Store → Store
step (invalid key reason now writable) s = observe_invalid_locked key reason now writable s
step (probe key writable) s = ban_permanent_locked key writable s
step (valid key) s = observe_valid_locked key s
step (unban key writable) s = (unban_locked key writable s).0

unfoldable pub run : List Op → Store → Store
run [] s = s
run (o ∷ os) s = run os (step o s)

pub data Change : Type 0 where
  one_address : Op → Change
  unban_nets : List Bytes → Bool → Change

-- the parameters are net.ParseIP and the second step of parsing a network
module _ (parse_ip : Bytes → Option Ip) (parse_cidr : Bytes → Option IpNet) where
  unfoldable pub change : Change → Store → Store
  change (one_address o) s = step o s
  change (unban_nets cidrs writable) s = unban_cidrs parse_ip parse_cidr cidrs writable s

  unfoldable pub changes : List Change → Store → Store
  changes [] s = s
  changes (c ∷ cs) s = changes cs (change c s)
