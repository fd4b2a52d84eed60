-- ===== src/TaskLog/Readable.antt =====
-- src/agent/tasklog.rs: the line of a running task can be read back.
use rabb1t_claw.Base.{ℕ, ◌-◌, List, ◌++◌, map, refl, Text, codes, All, All-append}
use rabb1t_claw.Agent.Background.{decimal}
use rabb1t_claw.State.{GatewayState}
use rabb1t_claw.TaskLog.Block.{live_line, elapsed_secs, status_detail, live_lines}
use rabb1t_claw.TaskLog.Flat.{IsFlat, lacks, lacks-IsFlat, IsFlat-append, decimal-IsFlat, All-map}
use rabb1t_claw.TaskLog.Lines.{IsEntry}
use rabb1t_claw.Tracker.{
  TrackedItem, AdvancedTaskStatus, needs_input, get_running, code_status, search_status,
  advanced_status,
}

abbrev pub HasFlatName : {S : Type 0} → TrackedItem S → Type 0
HasFlatName t = IsFlat t.description

abbrev pub HasFlatStatus : AdvancedTaskStatus → Type 0
HasFlatStatus (needs_input question) = IsFlat question
HasFlatStatus (AdvancedTaskStatus.running step detail) = IsFlat detail
HasFlatStatus (AdvancedTaskStatus.completed result) = Unit
HasFlatStatus (AdvancedTaskStatus.failed error) = Unit

-- the descriptions of the running tasks of a device, and what the advanced ones ask or do
abbrev pub HasFlatTasks : GatewayState → Text → Type 0
HasFlatTasks s prefix =
    All HasFlatName (get_running s.code_tasks prefix)
    × All HasFlatName (get_running s.search_queries prefix)
    × All (λ t. HasFlatName t × HasFlatStatus t.status) (get_running s.advanced_tasks prefix)

elapsed_secs-IsFlat : {S : Type 0} (now : ℕ) (t : TrackedItem S) → IsFlat (elapsed_secs now t)
unfolding elapsed_secs lacks
elapsed_secs-IsFlat now t =
    IsFlat-append (decimal (now - t.started_at)) (codes "s") (decimal-IsFlat (now - t.started_at))
      (lacks-IsFlat (codes "s") refl refl)

status_detail-IsFlat :
    (now : ℕ) (t : TrackedItem AdvancedTaskStatus) (status : AdvancedTaskStatus)
    → HasFlatStatus status
    → IsFlat (status_detail now t status)
unfolding status_detail lacks
status_detail-IsFlat now t (needs_input question) h =
    IsFlat-append (codes "asking: ") question (lacks-IsFlat (codes "asking: ") refl refl) h
status_detail-IsFlat now t (AdvancedTaskStatus.running step detail) h =
    let timed = codes ", " ++ elapsed_secs now t in
    let stepped = codes ": " ++ (detail ++ timed) in
    IsFlat-append (codes "step ") (decimal step ++ stepped) (lacks-IsFlat (codes "step ") refl refl)
      (IsFlat-append (decimal step) stepped (decimal-IsFlat step) (
        IsFlat-append (codes ": ") (detail ++ timed) (lacks-IsFlat (codes ": ") refl refl) (
          IsFlat-append detail timed h (
            IsFlat-append (codes ", ") (elapsed_secs now t) (lacks-IsFlat (codes ", ") refl refl)
              (elapsed_secs-IsFlat now t)))))
status_detail-IsFlat now t (AdvancedTaskStatus.completed result) h = elapsed_secs-IsFlat now t
status_detail-IsFlat now t (AdvancedTaskStatus.failed error) h = elapsed_secs-IsFlat now t

live_line-IsEntry :
    {S : Type 0} (kind detail : Text) (t : TrackedItem S)
    → IsFlat kind
    → IsFlat detail
    → HasFlatName t
    → IsEntry (live_line kind detail t)
unfolding live_line lacks
live_line-IsEntry kind detail t k d h =
    let closed = detail ++ codes ")" in
    let named = t.description ++ (codes " (" ++ closed) in
    let flat : IsFlat (live_line kind detail t) =
      IsFlat-append (codes "[live] running #") (decimal t.id ++ (kind ++ (codes " — " ++ named)))
        (lacks-IsFlat (codes "[live] running #") refl refl)
        (IsFlat-append (decimal t.id) (kind ++ (codes " — " ++ named)) (decimal-IsFlat t.id) (
          IsFlat-append kind (codes " — " ++ named) k (
            IsFlat-append (codes " — ") named (lacks-IsFlat (codes " — ") refl refl) (
              IsFlat-append t.description (codes " (" ++ closed) h (
                IsFlat-append (codes " (") closed (lacks-IsFlat (codes " (") refl refl)
                  (IsFlat-append detail (codes ")") d (lacks-IsFlat (codes ")") refl refl))))))) in
    (flat.0, flat.1, refl)

kind_lines-IsEntry :
    {S : Type 0} (P : TrackedItem S → Type 0) (kind : Text) (detail : TrackedItem S → Text)
    → IsFlat kind
    → ((t : TrackedItem S) → P t → IsFlat (detail t) × HasFlatName t)
    → (ts : List (TrackedItem S)) → All P ts
    → All IsEntry (map (λ t. live_line kind (detail t) t) ts)
kind_lines-IsEntry P kind detail k h =
    All-map P IsEntry (λ t. live_line kind (detail t) t)
      λ t p. live_line-IsEntry kind (detail t) t k (h t p).0 (h t p).1

pub live_lines-IsEntry :
    (s : GatewayState) (prefix : Text) (now : ℕ)
    → HasFlatTasks s prefix
    → All IsEntry (live_lines s prefix now)
unfolding live_lines lacks
live_lines-IsEntry s prefix now (c, q, a) =
    let coded =
      kind_lines-IsEntry HasFlatName (codes " code") (elapsed_secs now)
        (lacks-IsFlat (codes " code") refl refl) (λ t h. (elapsed_secs-IsFlat now t, h))
        (get_running s.code_tasks prefix) c in
    let searched =
      kind_lines-IsEntry HasFlatName (codes " search") (elapsed_secs now)
        (lacks-IsFlat (codes " search") refl refl) (λ t h. (elapsed_secs-IsFlat now t, h))
        (get_running s.search_queries prefix) q in
    let advised =
      kind_lines-IsEntry (λ t. HasFlatName t × HasFlatStatus t.status) (codes " advanced")
        (λ t. status_detail now t t.status) (lacks-IsFlat (codes " advanced") refl refl)
        (λ t h. (status_detail-IsFlat now t t.status h.1, h.0))
        (get_running s.advanced_tasks prefix) a in
    All-append IsEntry _ _ coded (All-append IsEntry _ _ searched advised)
