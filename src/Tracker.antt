-- ===== src/Tracker.antt =====
-- src/agent/tracker.rs and the status types of src/agent/{code,search,advanced}/tracker.rs. Each
-- method holds the lock of `items` throughout, so it is one step on the map.
pub mod Bounds
pub mod Complete
pub mod Truncate
use rabb1t_claw.Base.{
  ℕ, zero, suc, ◌+◌, ◌-◌, Bool, true, false, not, ◌&&◌, Option, none, some, List, [], ◌∷◌, ◌++◌,
  ◌≡◌, refl, if◌then◌else◌, Text, codes, TextMap, lookup, insert, unwrap_or, length, count_if,
  retain, update_first, ltb, leb, ◌==◌, map_or,
}

-- the trait `TaskStatus`, with what its users rely on
pub record TaskStatus (S : Type 0) : Type 0 where
  pub is_running : S → Bool
  pub default_running : S
  pub default_is_running : is_running default_running ≡ true

pub data CodeTaskStatus : Type 0 where
  running : CodeTaskStatus
  completed : Text → CodeTaskStatus
  failed : Text → CodeTaskStatus

pub data SearchQueryStatus : Type 0 where
  running : SearchQueryStatus
  completed : Text → SearchQueryStatus
  failed : Text → SearchQueryStatus

pub data AdvancedTaskStatus : Type 0 where
  running : ℕ → Text → AdvancedTaskStatus
  needs_input : Text → AdvancedTaskStatus
  completed : Text → AdvancedTaskStatus
  failed : Text → AdvancedTaskStatus

abbrev code_is_running : CodeTaskStatus → Bool
code_is_running CodeTaskStatus.running = true
code_is_running _ = false

abbrev search_is_running : SearchQueryStatus → Bool
search_is_running SearchQueryStatus.running = true
search_is_running _ = false

abbrev advanced_is_running : AdvancedTaskStatus → Bool
advanced_is_running (AdvancedTaskStatus.running step detail) = true
advanced_is_running (AdvancedTaskStatus.needs_input question) = true
advanced_is_running _ = false

instance abbrev pub code_status : TaskStatus CodeTaskStatus
code_status = record {
  is_running = code_is_running;
  default_running = CodeTaskStatus.running;
  default_is_running = refl;
}

instance abbrev pub search_status : TaskStatus SearchQueryStatus
search_status = record {
  is_running = search_is_running;
  default_running = SearchQueryStatus.running;
  default_is_running = refl;
}

instance abbrev pub advanced_status : TaskStatus AdvancedTaskStatus
advanced_status = record {
  is_running = advanced_is_running;
  default_running = AdvancedTaskStatus.running 0 (codes "initializing");
  default_is_running = refl;
}

pub record TrackedItem (S : Type 0) : Type 0 where
  pub id : ℕ
  pub description : Text
  pub status : S
  pub started_at : ℕ
  pub completed_at : Option ℕ

-- `BackgroundTracker`: the items of each device prefix
abbrev pub Tracker : Type 0 → Type 0
Tracker S = TextMap (List (TrackedItem S))

unfoldable pub items_of : {S : Type 0} → Tracker S → Text → List (TrackedItem S)
items_of items prefix = unwrap_or (lookup prefix items) []

module _ {S : Type 0} ⦃status : TaskStatus S⦄ where
  abbrev pub running_item : TrackedItem S → Bool
  running_item t = status.is_running t.status

  -- the `retain` that drops the oldest finished items
  unfoldable pub drop_finished : ℕ → List (TrackedItem S) → List (TrackedItem S)
  drop_finished excess [] = []
  drop_finished excess (t ∷ ts) =
      let dropped = ltb 0 excess && not (running_item t) in
      let rest = drop_finished (if dropped then excess - 1 else excess) ts in
      if dropped then rest else t ∷ rest

  abbrev pub new_item : ℕ → Text → ℕ → TrackedItem S
  new_item id description now = record {
    id = id;
    description = description;
    status = status.default_running;
    started_at = now;
    completed_at = none;
  }

  -- `true` for `Some(())`. A refusal leaves the entry that `or_default` made.
  unfoldable pub register : Tracker S → Text → ℕ → Text → ℕ → ℕ → ℕ → Tracker S × Bool
  unfolding drop_finished
  register items prefix id description max_concurrent max_retained now =
      let entry = items_of items prefix in
      let running = count_if running_item entry in
      let excess = (length entry - running) - max_retained in
      let kept = drop_finished excess entry in
      if leb max_concurrent running
      then (insert prefix entry items, false)
      else (insert prefix (kept ++ new_item id description now ∷ []) items, true)

  abbrev pub has_id : ℕ → TrackedItem S → Bool
  has_id id t = t.id == id

  abbrev pub finished : S → ℕ → TrackedItem S → TrackedItem S
  finished s now t = record t { status = s; completed_at = some now }

  abbrev pub with_status : S → TrackedItem S → TrackedItem S
  with_status s t = record t { status = s }

  unfoldable pub complete : Tracker S → Text → ℕ → S → ℕ → Tracker S
  complete items prefix id s now =
      map_or (lookup prefix items) items
        λ list. insert prefix (update_first (has_id id) (finished s now) list) items

  unfoldable pub update_status : Tracker S → Text → ℕ → S → Tracker S
  update_status items prefix id s =
      map_or (lookup prefix items) items
        λ list. insert prefix (update_first (has_id id) (with_status s) list) items

  unfoldable pub get_running : Tracker S → Text → List (TrackedItem S)
  get_running items prefix = retain running_item (items_of items prefix)
