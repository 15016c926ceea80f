-- ===== src/Ban/Reports.antt =====
-- internal/ban/store.go: Counts, List and Kind tell the same story.
use faketunnel.Base.{
  ℕ, ◌+◌, ◌≡◌, Bool, true, false, ◌||◌, List, [], ◌∷◌, arith, if◌then◌else◌, Bytes,
}
use faketunnel.Ban.Store.{Kind, temporary, permanent, Record, Store, blocked_locked, kind_locked}
use faketunnel.Ban.Methods.{Entry, entries_of, list, count_from, counts}

abbrev pub is_temporary : Kind → Bool
is_temporary temporary = true
is_temporary _ = false

abbrev pub is_permanent : Kind → Bool
is_permanent permanent = true
is_permanent _ = false

-- how many rows of a listing are of a kind
abbrev pub rows : (Kind → Bool) → List Entry → ℕ
rows test [] = 0
rows test (e ∷ es) = (if test e.kind then 1 else 0) + rows test es

count_from-rows :
    (now : ℕ) (m : List (Bytes × Record)) (t p : ℕ)
    → count_from now m (t, p)
      ≡ (t + rows is_temporary (entries_of now m), p + rows is_permanent (entries_of now m))
unfolding count_from entries_of
count_from-rows now [] t p = ground arith
count_from-rows now ((ip, r) ∷ m) t p = ground (
  arith,
  count_from-rows now m t p,
  count_from-rows now m (t + 1) p,
  count_from-rows now m t (p + 1),
)

-- Counts returns the numbers of temporary and of permanent rows that List shows at that time.
pub counts-list :
    (now : ℕ) (s : Store)
    → counts now s ≡ (rows is_temporary (list now s), rows is_permanent (list now s))
unfolding counts list
counts-list now s = ground (arith, count_from-rows now s.by_ip 0 0)

-- An address is blocked exactly while Kind names a ban.
pub blocked-kind :
    (s : Store) (key : Bytes) (now : ℕ)
    → blocked_locked s key now
      ≡ (is_temporary (kind_locked s key now) || is_permanent (kind_locked s key now))
unfolding blocked_locked kind_locked
blocked-kind s key now = ground arith
