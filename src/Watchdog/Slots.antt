-- ===== src/Watchdog/Slots.antt =====
-- components/app_watchdog: the state, the slots and the masks. A mask is the list of its bits, the
-- lowest first, one for each of the eight slots; the higher bits of the `uint32_t` are never set.
use esp32_s3_hot_tub_base.Base.{
  ℕ, suc, Bool, true, false, not, ◌&&◌, ◌||◌, List, [], ◌∷◌, Option, none, some, map, ◌==◌,
  if◌then◌else◌, replicate,
}

-- `app_watchdog_quorum_policy_t`
pub data Quorum : Type 0 where
  all any : Quorum

-- `app_watchdog_config_t`
pub record Config : Type 0 where
  pub enabled : Bool
  pub twdt_timeout_s : ℕ
  pub rtc_wdt_margin_ms : ℕ
  pub enable_rtc_wdt_fallback : Bool
  pub twdt_panic_on_timeout : Bool
  pub quorum_policy : Quorum

-- `set_default_config`
unfoldable pub default_config : Config
default_config = record {
  enabled = true;
  twdt_timeout_s = 5;
  rtc_wdt_margin_ms = 2000;
  enable_rtc_wdt_fallback = true;
  twdt_panic_on_timeout = true;
  quorum_policy = all;
}

-- `app_watchdog_task_slot_t`: a task's handle is a number, 0 for NULL; a name is its C string.
pub record Slot : Type 0 where
  pub handle : ℕ
  pub active : Bool
  pub subscribed : Bool
  pub name : List ℕ

-- A slot after `memset`.
abbrev pub empty_slot : Slot
empty_slot = record { handle = 0; active = false; subscribed = false; name = [] }

abbrev pub Mask : Type 0
Mask = List Bool

-- The statics of the component. `rtc_feeds` counts the calls of `wdt_hal_feed` after the start.
pub record Watchdog : Type 0 where
  pub mutex : Bool
  pub initialized : Bool
  pub enabled : Bool
  pub config : Config
  pub slots : List Slot
  pub required : Mask
  pub seen : Mask
  pub rtc_feeds : ℕ

-- `APP_WATCHDOG_MAX_TASKS`
abbrev pub max_tasks : ℕ
max_tasks = 8

-- The bit of a slot in the required mask.
abbrev pub is_required : Slot → Bool
is_required s = s.active && not (s.handle == 0)

-- `a & b`
unfoldable pub mask_and : Mask → Mask → Mask
mask_and [] bs = []
mask_and (a ∷ as_) [] = []
mask_and (a ∷ as_) (b ∷ bs) = (a && b) ∷ mask_and as_ bs

-- `a == 0`
unfoldable pub is_empty : Mask → Bool
is_empty [] = true
is_empty (b ∷ bs) = not b && is_empty bs

-- `(seen & required) == required`
unfoldable pub covers : Mask → Mask → Bool
covers seen [] = true
covers [] (r ∷ rs) = not r && covers [] rs
covers (s ∷ ss) (r ∷ rs) = (s || not r) && covers ss rs

-- `refresh_required_feed_mask_locked`
unfoldable pub refresh_required_feed_mask : Watchdog → Watchdog
unfolding mask_and
refresh_required_feed_mask w =
    let required = map is_required w.slots in
    record w { required = required; seen = mask_and w.seen required }

unfoldable pub quorum_satisfied : Quorum → Mask → Mask → Bool
unfolding covers mask_and is_empty
quorum_satisfied all seen required = covers seen required
quorum_satisfied any seen required = not (is_empty (mask_and seen required))

-- `feed_rtc_wdt_if_quorum_locked`
unfoldable pub feed_rtc_wdt_if_quorum : Watchdog → Watchdog
unfolding quorum_satisfied is_empty
feed_rtc_wdt_if_quorum w =
    if not w.enabled || not w.config.enable_rtc_wdt_fallback || is_empty w.required
    then w
    else (if quorum_satisfied w.config.quorum_policy w.seen w.required
        then record w { rtc_feeds = suc w.rtc_feeds; seen = replicate max_tasks false }
        else w)

-- `++i` on the way back from the rest of the slots.
abbrev pub next_index : Option ℕ → Option ℕ
next_index none = none
next_index (some i) = some (suc i)

-- The loop of `find_slot_by_handle`: the index of the first active slot with that handle.
unfoldable pub find_index : ℕ → List Slot → Option ℕ
find_index h [] = none
find_index h (s ∷ ss) =
    let rest = next_index (find_index h ss) in if s.active && s.handle == h then some 0 else rest

-- `find_slot_by_handle`
unfoldable pub find_slot_by_handle : ℕ → List Slot → Option ℕ
unfolding find_index
find_slot_by_handle h slots = if h == 0 then none else find_index h slots

-- `alloc_slot`: the index of the first slot that is not active.
unfoldable pub alloc_slot : List Slot → Option ℕ
alloc_slot [] = none
alloc_slot (s ∷ ss) = let rest = next_index (alloc_slot ss) in if s.active then rest else some 0
