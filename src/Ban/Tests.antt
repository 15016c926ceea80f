-- ===== src/Ban/Tests.antt =====
-- Runs of internal/ban at concrete inputs.
use faketunnel.Base.{
  ℕ, ◌+◌, ◌*◌, ◌≡◌, refl, true, false, ◌||◌, Option, none, some, List, [], ◌∷◌, arith, length,
  Bytes, text, text_eq,
}
use faketunnel.Base.Maps.{lookup, insert, contains}
use faketunnel.Net.{Ip, IpNet, to4, shortest, is_unspecified}
use faketunnel.Ban.Store.{
  temporary, permanent, fresh, Store, invalid_limit, temp_duration, blocked_locked, kind_locked,
  observe_invalid_locked, persist_locked, ban_permanent_locked,
}
use faketunnel.Ban.Methods.{ip_key, new, parsed_key}
use faketunnel.Ban.Streaks.{strikes}
use faketunnel.Ban.Escalation.{first_streak_bans, second_streak_is_permanent}
use faketunnel.Ban.Steps.{
  invalid, probe, valid, unban, step, Change, one_address, unban_nets, changes,
}
use faketunnel.Ban.Invariant.{IsValid}
use faketunnel.Ban.Histories.{history-IsValid, unbanned_for_good}
use faketunnel.Ban.Reports.{is_temporary, is_permanent, blocked-kind}
use faketunnel.Ban.Reload.{new-persist_locked}

abbrev empty : Store
empty = record {
  path = text "denylist.json";
  ttl = temp_duration;
  limit = invalid_limit;
  by_ip = [];
  pardoned = [];
  hooks = 0;
  notices = 0;
  file = none;
}

abbrev mallory : Bytes
mallory = text "6.6.6.6"

abbrev acl : Bytes
acl = text "acl"

-- stand-ins for printing and parsing: a text is its own address
abbrev as_text : Ip → Bytes
as_text ip = ip

abbrev as_ip : Bytes → Option Ip
as_ip t = some t

abbrev no_cidr : Bytes → Option IpNet
no_cidr t = none

-- a network of all addresses that are as long
abbrev around : Bytes → Option IpNet
around t = some (record { address = t; ones = 0; bits = 8 * length t })

new_is_empty : new as_text as_ip (text "denylist.json") none ≡ empty
unfolding new
new_is_empty = refl

unspecified_has_no_key : ip_key as_text (0 ∷ 0 ∷ 0 ∷ 0 ∷ []) ≡ []
unfolding ip_key is_unspecified to4 shortest text_eq
unspecified_has_no_key = refl

mapped_key :
    ip_key as_text (0 ∷ 0 ∷ 0 ∷ 0 ∷ 0 ∷ 0 ∷ 0 ∷ 0 ∷ 0 ∷ 0 ∷ 255 ∷ 255 ∷ 6 ∷ 6 ∷ 6 ∷ 6 ∷ [])
    ≡ 6 ∷ 6 ∷ 6 ∷ 6 ∷ []
unfolding ip_key is_unspecified to4 shortest text_eq
mapped_key = refl

first_streak_bans_example :
    (blocked_locked (strikes mallory acl true (1 ∷ 2 ∷ 3 ∷ 4 ∷ []) empty) mallory 9 ≡ false)
    × (kind_locked
          (observe_invalid_locked mallory acl 5 true
            (strikes mallory acl true (1 ∷ 2 ∷ 3 ∷ 4 ∷ []) empty))
          mallory
          9
        ≡ temporary)
unfolding lookup contains
first_streak_bans_example =
    first_streak_bans mallory acl true empty refl refl 1 (2 ∷ 3 ∷ 4 ∷ []) 5 9 refl

abbrev once_banned : Store
once_banned =
    observe_invalid_locked mallory acl 5 true (strikes mallory acl true (1 ∷ 2 ∷ 3 ∷ 4 ∷ []) empty)

abbrev after : ℕ
after = temp_duration + 5

second_streak_is_permanent_example :
    kind_locked
      (observe_invalid_locked mallory acl (after + 4) true (
        strikes mallory acl true
          (after ∷ (after + 1) ∷ (after + 2) ∷ (after + 3) ∷ [])
          once_banned))
      mallory
      7
    ≡ permanent
unfolding lookup contains
second_streak_is_permanent_example =
    second_streak_is_permanent mallory acl true empty refl refl 1 (2 ∷ 3 ∷ 4 ∷ []) 5 after
      ((after + 1) ∷ (after + 2) ∷ (after + 3) ∷ []) (after + 4) 7 refl (omega arith) refl

abbrev day : List Change
day =
    one_address (probe mallory true)
    ∷ one_address (invalid mallory acl 3 true)
    ∷ one_address (valid mallory)
    ∷ one_address (unban (text "1.1.1.1") false)
    ∷ unban_nets (mallory ∷ []) true
    ∷ []

history-IsValid_example :
    IsValid (changes as_ip around day (new as_text as_ip (text "denylist.json") none))
history-IsValid_example = history-IsValid as_ip around as_text (text "denylist.json") day

abbrev banned : Store
banned = record empty { by_ip = (mallory, record fresh { permanent = true; bans = 2 }) ∷ [] }

banned_by_probe : (step (probe mallory false) empty).by_ip ≡ banned.by_ip
unfolding step ban_permanent_locked persist_locked lookup insert contains
banned_by_probe = refl

banned-IsValid : IsValid banned
unfolding lookup contains
banned-IsValid = record {
  limit_big = omega arith;
  sound = (
    record {
      streak_short = omega arith;
      permanent_endless = λ e. refl;
      permanent_earned = λ e. omega arith;
      temporary_once = λ e. cc;
    },
    tt,
  );
  distinct = (refl, tt);
  pardoned_clean = λ k e. cc;
}

unbanned_for_good_example :
    blocked_locked (changes as_ip around day (step (unban mallory true) banned)) mallory 100 ≡ false
unfolding blocked_locked lookup text_eq
unbanned_for_good_example =
    unbanned_for_good as_ip around day mallory true 7 banned banned-IsValid refl 100

blocked-kind_example :
    blocked_locked banned mallory 7
    ≡ (is_temporary (kind_locked banned mallory 7) || is_permanent (kind_locked banned mallory 7))
blocked-kind_example = blocked-kind banned mallory 7

new-persist_locked_example :
    (blocked_locked
        (new as_text as_ip (text "denylist.json") (persist_locked true banned).0.file)
        mallory
        7
      ≡ blocked_locked banned mallory 7)
    × (contains mallory
          (new as_text as_ip (text "denylist.json") (persist_locked true banned).0.file).pardoned
        ≡ contains mallory banned.pardoned)
unfolding lookup parsed_key ip_key is_unspecified to4 shortest text_eq
new-persist_locked_example =
    new-persist_locked as_text as_ip banned (omega arith) (refl, tt) ((refl, omega arith), tt) tt
      mallory 7
