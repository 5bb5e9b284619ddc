-- ===== src/Api/Uploads/Retention.antt =====
-- How long a job of `PostFileHandlerV2` is kept (api/file_handler.go): the job map holds pointers to the
-- states of jobs, which the handlers go on changing, and ten minutes after a job has gone well a timer
-- deletes what the map holds under its id. The times are seconds.
use sequoia.Prelude.{
  ℕ, suc, ◌+◌, ◌≤◌, leb, ◌==◌, if◌then◌else◌, Bool, true, false, ◌&&◌, ◌||◌, List, [], ◌∷◌, Option,
  none, some, ◌≡◌, refl, sym, ◌∙◌, arith, Bool-cases, inl, inr,
}
use sequoia.Prelude.Bytes.{Bytes, bytes_equal, bytes_equal→eq, bytes_equal_refl, bytes_equal_comm}
use sequoia.FileSystem.Write.{Tracker}

pub record Retained : Type 0 where
  pub entries : List (Bytes × ℕ)
  pub trackers : ℕ → Tracker
  pub next : ℕ
  pub timers : List (ℕ × Bytes)

unfoldable pub remove : Bytes → List (Bytes × ℕ) → List (Bytes × ℕ)
remove id [] = []
remove id ((k, n) ∷ es) =
    let rest = remove id es in if bytes_equal id k then rest else (k, n) ∷ rest

unfoldable pub entry_of : Bytes → List (Bytes × ℕ) → Option ℕ
entry_of id [] = none
entry_of id ((k, n) ∷ es) = let rest = entry_of id es in if bytes_equal id k then some n else rest

abbrev pub set_tracker : (ℕ → Tracker) → ℕ → Tracker → ℕ → Tracker
set_tracker f n t i = if i == n then t else f i

-- `JobMap.Store`: a new state, under an id that may have one.
unfoldable pub start_job : Bytes → Tracker → Retained → Retained
unfolding remove
start_job id t r = record {
  entries = (id, r.next) ∷ remove id r.entries;
  trackers = set_tracker r.trackers r.next t;
  next = suc r.next;
  timers = r.timers;
}

-- A handler changes the state of its job.
unfoldable pub change_job : ℕ → Tracker → Retained → Retained
change_job n t r = record r { trackers = set_tracker r.trackers n t }

-- The end of a job that went well. Other jobs get no timer.
unfoldable pub end_job : ℕ → Bytes → Retained → Retained
end_job now id r = record r { timers = (now + 600, id) ∷ r.timers }

unfoldable pub fire : ℕ → List (ℕ × Bytes) → List (Bytes × ℕ) → List (Bytes × ℕ)
fire now [] es = es
fire now ((at, id) ∷ ts) es =
    let rest = fire now ts es in if leb at now then remove id rest else rest

unfoldable pub still_due : ℕ → List (ℕ × Bytes) → List (ℕ × Bytes)
still_due now [] = []
still_due now ((at, id) ∷ ts) =
    let rest = still_due now ts in if leb at now then rest else (at, id) ∷ rest

-- The timers that have come due by now have run.
unfoldable pub advance : ℕ → Retained → Retained
unfolding fire still_due
advance now r = record r { entries = fire now r.timers r.entries; timers = still_due now r.timers }

abbrev tracker_at : (ℕ → Tracker) → Option ℕ → Option Tracker
tracker_at f none = none
tracker_at f (some n) = some (f n)

-- What `CheckUploadStatus` finds.
unfoldable pub status : Bytes → Retained → Option Tracker
unfolding entry_of
status id r = tracker_at r.trackers (entry_of id r.entries)

-- A timer of the id has come due.
unfoldable pub is_due : ℕ → Bytes → List (ℕ × Bytes) → Bool
is_due now id [] = false
is_due now id ((at, k) ∷ ts) = (leb at now && bytes_equal k id) || is_due now id ts

same_either {ℓ} : {A : Type ℓ} (b : Bool) (x : A) → x ≡ (if b then x else x)
same_either true x = refl
same_either false x = refl

-- The removed entry is under the id, or is not.
removed_step :
    (ki ij : Bool) (n : ℕ) (o : Option ℕ)
    → ij ≡ ki
    → (if ki then none else o) ≡ (if ki then none else if ij then some n else o)
removed_step true ij n o h = refl
removed_step false true n o h = cc
removed_step false false n o h = refl

-- The entry that stays is not under both.
kept_step :
    (ki ij : Bool) (n : ℕ) (o : Option ℕ)
    → (ki ≡ true → ij ≡ true → false ≡ true)
    → (if ij then some n else if ki then none else o)
      ≡ (if ki then none else if ij then some n else o)
kept_step true true n o h = let wrong = h refl refl in cc
kept_step true false n o h = refl
kept_step false true n o h = refl
kept_step false false n o h = refl

entry_of-remove :
    (id k : Bytes) (es : List (Bytes × ℕ))
    → entry_of id (remove k es) ≡ (if bytes_equal k id then none else entry_of id es)
unfolding entry_of remove
entry_of-remove id k [] = same_either (bytes_equal k id) none
entry_of-remove id k ((j, n) ∷ es) = elim (Bool-cases (bytes_equal k j)) [
  | inl e ↦
      rw (e, entry_of-remove id k es)
        (removed_step (bytes_equal k id) (bytes_equal id j) n (entry_of id es)
          (rw (bytes_equal→eq k j e) (bytes_equal_comm id j)))
  | inr e ↦
      rw (e, entry_of-remove id k es)
        (kept_step (bytes_equal k id) (bytes_equal id j) n (entry_of id es)
          (λ ki ij. let kj = rw (bytes_equal→eq id j ij) at ki in sym e ∙ kj))
]

entry_of-fire :
    (now : ℕ) (id : Bytes) (ts : List (ℕ × Bytes)) (es : List (Bytes × ℕ))
    → entry_of id (fire now ts es) ≡ (if is_due now id ts then none else entry_of id es)
unfolding fire is_due
entry_of-fire now id [] es = refl
entry_of-fire now id ((at, k) ∷ ts) es =
    ground (arith, entry_of-fire now id ts es, entry_of-remove id k (fire now ts es))

due_gone :
    (b : Bool) (f : ℕ → Tracker) (o : Option ℕ)
    → tracker_at f (if b then none else o) ≡ (if b then none else tracker_at f o)
due_gone true f o = refl
due_gone false f o = refl

-- A job is there as long as no timer of its id has come due, and not after that.
pub status-advance :
    (now : ℕ) (id : Bytes) (r : Retained)
    → status id (advance now r) ≡ (if is_due now id r.timers then none else status id r)
unfolding status advance
status-advance now id r =
    rw (entry_of-fire now id r.timers r.entries)
      (due_gone (is_due now id r.timers) r.trackers (entry_of id r.entries))

is_due_started :
    (at : ℕ) (id : Bytes) (ts : List (ℕ × Bytes)) (now : ℕ)
    → at ≤ now
    → is_due now id ((at, id) ∷ ts) ≡ true
unfolding is_due
is_due_started at id ts now h = rw (bytes_equal_refl id) (ground arith)

-- After an upload has gone well, an upload of the same file starts while the timer of the first one runs:
-- ten minutes after the first one went well, the job of the second one, whatever it is doing, is deleted,
-- and its status is that of an unknown job.
pub second_upload_forgotten :
    (done now : ℕ) (id : Bytes) (t t' : Tracker) (n : ℕ) (r : Retained)
    → done + 600 ≤ now
    → status id (advance now (change_job n t' (start_job id t (end_job done id r)))) ≡ none
unfolding start_job change_job end_job
second_upload_forgotten done now id t t' n r late =
    status-advance now id (change_job n t' (start_job id t (end_job done id r)))
    ∙ rw (is_due_started (done + 600) id r.timers now late) refl

alone {ℓ} :
    {A : Type ℓ} (b : Bool) (o : Option A)
    → (if (b && true) || false then none else o) ≡ (if b then none else o)
alone true o = refl
alone false o = refl

-- A job under an id that has no timer is there ten minutes from the moment when it went well, and not
-- longer.
pub kept_ten_minutes :
    (done now : ℕ) (id : Bytes) (r : Retained)
    → is_due now id r.timers ≡ false
    → status id (advance now (end_job done id r))
      ≡ (if leb (done + 600) now then none else status id r)
unfolding end_job is_due status
kept_ten_minutes done now id r no_timer =
    status-advance now id (end_job done id r)
    ∙ rw (bytes_equal_refl id, no_timer) (alone (leb (done + 600) now) (status id r))
