-- ===== src/Planner/Stamps/Skips.antt =====
-- planner.bulk_rows_to_write: the rows that the bulk advance leaves out, against the statement that it would run.
use lakefed_ingest.Prelude.{
  ℕ, ◌+◌, ◌≤◌, ◌<◌, Option, none, some, Bool, true, false, not, ◌&&◌, ◌||◌, List, [], ◌∷◌, Result,
  ok, ◌>>=◌, ok-injective, codes, text_eq, text_eq_iff, if◌then◌else◌, ◌==◌, leb, ◌≡◌, refl, sym,
  arith, OnOk, OnOk-bind, Result-cases, OnOk-ok, Bool-cases, ◌⊎◌, &&-eq-true, ap, ◌∙◌, inl, inr,
  leb→le, ltb→lt,
}
use lakefed_ingest.Control.{Checkpoint, Problem, incremental, strategy_of}
use lakefed_ingest.Control.Positions.{ct_position}
use lakefed_ingest.Planner.Detect.{UnchangedRow}
use lakefed_ingest.Planner.Stamps.{
  Stamp, Checkpoints, is_recorded, later_of, stamp_time, stamp_vouches, refresh_only, last_success,
  is_recent, is_skipped, rows_to_write, bulk_rows_to_write,
}
use lakefed_ingest.Planner.Stamps.Advance.{Stored, stored_of, coalesce, applies, bulk_advance}

-- A write that may change the last success and record a merge key, and leaves all else.
pub record IsRefresh (before after : Stored) : Type 0 where
  pub position : after.position ≡ before.position
  pub status : after.status ≡ before.status
  pub select_list : after.select_list ≡ before.select_list
  pub ct_begin_version : after.ct_begin_version ≡ before.ct_begin_version
  pub source_identity : after.source_identity ≡ before.source_identity
  pub sink_identity : after.sink_identity ≡ before.sink_identity

-- A table stood at a position, or past it, at a time: by its own checkpoint, or by a check of its whole
-- database at a version that an incremental change tracking checkpoint has reached.
abbrev pub WasCurrent : Checkpoint → Option Stamp → ℕ → ℕ → Type 0
WasCurrent cp stamp position time =
    (cp.last_success_at ≡ some time)
    ⊎ ((s : Stamp) × ((stamp ≡ some s)
          × (s.checked_at ≡ some time)
          × (s.version ≤ position)
          × (text_eq cp.phase incremental ≡ true)
          × (text_eq (strategy_of cp) (codes "ct") ≡ true)))

-- Why a row needs no write: it would only refresh the checkpoint, and that was confirmed within the interval.
pub record IsCurrent (checkpoints : Checkpoints) (stamp_of : ℕ → Option Stamp) (interval now : ℕ)
    (row : UnchangedRow) : Type 0 where
  pub cp : Checkpoint
  pub found : checkpoints row.control_id ≡ some cp
  pub position : ℕ
  pub decoded : ct_position cp ≡ ok position
  pub refresh : IsRefresh (stored_of cp position) (bulk_advance now row cp position)
  pub time : ℕ
  pub confirmed : WasCurrent cp (stamp_of row.control_id) position time
  pub recent : now < time + interval

-- The rows written are the unchanged rows less some that are current.
pub data Leaves (checkpoints : Checkpoints) (stamp_of : ℕ → Option Stamp) (interval now : ℕ)
    : List UnchangedRow → List UnchangedRow → Type 0 where
  end : Leaves checkpoints stamp_of interval now [] []
  written :
      {row : UnchangedRow} {rows out : List UnchangedRow}
      → Leaves checkpoints stamp_of interval now rows out
      → Leaves checkpoints stamp_of interval now (row ∷ rows) (row ∷ out)
  skipped :
      {row : UnchangedRow} {rows out : List UnchangedRow}
      → IsCurrent checkpoints stamp_of interval now row
      → Leaves checkpoints stamp_of interval now rows out
      → Leaves checkpoints stamp_of interval now (row ∷ rows) out

all_written :
    (checkpoints : Checkpoints) (stamp_of : ℕ → Option Stamp) (interval now : ℕ)
    (rows : List UnchangedRow)
    → Leaves checkpoints stamp_of interval now rows rows
all_written checkpoints stamp_of interval now [] = end
all_written checkpoints stamp_of interval now (row ∷ rows) =
    written (all_written checkpoints stamp_of interval now rows)

coalesce_recorded :
    {A : Type 0} (old : Option A) (new : A) → is_recorded old ≡ true → coalesce old (some new) ≡ old
coalesce_recorded none new h = absurd (ground (arith, h))
coalesce_recorded (some a) new h = refl

coalesce_begin :
    (old new : Option ℕ)
    → (not (is_recorded new) || is_recorded old) ≡ true
    → coalesce old new ≡ old
coalesce_begin none none h = refl
coalesce_begin none (some b) h = absurd (ground (arith, h))
coalesce_begin (some a) new h = refl

coalesce_none : {A : Type 0} (new old : Option A) → is_recorded new ≡ false → coalesce new old ≡ old
coalesce_none none old h = refl
coalesce_none (some a) old h = absurd (ground (arith, h))

refresh_only-IsRefresh :
    (now : ℕ) (row : UnchangedRow) (cp : Checkpoint) (position : ℕ)
    → ct_position cp ≡ ok position
    → refresh_only row (some cp) ≡ ok true
    → IsRefresh (stored_of cp position) (bulk_advance now row cp position)
unfolding refresh_only bulk_advance
refresh_only-IsRefresh now row cp position e h = elim (Bool-cases (applies cp)) [
  | inl its ↦ rw its (record {
    position = ground (arith, e, h);
    status = sym ((text_eq_iff cp.status (codes "ok")).0 (ground (arith, e, h)));
    select_list = coalesce_none row.select_list cp.select_list (ground (arith, e, h));
    ct_begin_version = coalesce_begin cp.ct_begin_version row.begin (ground (arith, e, h));
    source_identity =
        coalesce_recorded cp.source_identity row.identity.source (ground (arith, e, h));
    sink_identity = coalesce_recorded cp.sink_identity row.identity.sink (ground (arith, e, h));
  })
  | inr other ↦ rw other (record {
    position = refl;
    status = refl;
    select_list = refl;
    ct_begin_version = refl;
    source_identity = refl;
    sink_identity = refl;
  })
]

refresh_only-position :
    (row : UnchangedRow) (cp : Checkpoint)
    → refresh_only row (some cp) ≡ ok true
    → (position : ℕ) × (ct_position cp ≡ ok position)
unfolding refresh_only
refresh_only-position row cp h = elim (Result-cases (ct_position cp)) [
  | inl found ↦ found
  | inr (problem, e) ↦ absurd (ground (arith, e, h))
]

later_of-either :
    (own other : Option ℕ) (time : ℕ)
    → later_of own other ≡ some time
    → (own ≡ some time) ⊎ (other ≡ some time)
later_of-either none none time h = inl h
later_of-either (some s) none time h = inl h
later_of-either none (some t) time h = inr h
later_of-either (some s) (some t) time h = elim (Bool-cases (leb s t)) [
  | inl later ↦ inr (ground (arith, later, h))
  | inr own ↦ inl (ground (arith, own, h))
]

stamp_vouches-facts :
    (cp : Checkpoint) (s : Stamp) (position : ℕ)
    → ct_position cp ≡ ok position
    → stamp_vouches (some cp) (some s) ≡ ok true
    → (s.version ≤ position)
      × (text_eq cp.phase incremental ≡ true)
      × (text_eq (strategy_of cp) (codes "ct") ≡ true)
unfolding stamp_vouches
stamp_vouches-facts cp s position e h =
    (leb→le s.version position (ground (arith, e, h)), ground (arith, e, h), ground (arith, e, h))

vouched-WasCurrent :
    (cp : Checkpoint) (stamp : Option Stamp) (position time : ℕ) (vouches : Bool)
    → ct_position cp ≡ ok position
    → stamp_vouches (some cp) stamp ≡ ok vouches
    → later_of cp.last_success_at (stamp_time vouches stamp) ≡ some time
    → WasCurrent cp stamp position time
unfolding stamp_vouches
vouched-WasCurrent cp none position time true e v h = inl (ground (arith, h))
vouched-WasCurrent cp none position time false e v h = inl h
vouched-WasCurrent cp (some s) position time false e v h = inl h
vouched-WasCurrent cp (some s) position time true e v h =
    elim (later_of-either cp.last_success_at s.checked_at time h) [
      | inl own ↦ inl own
      | inr checked ↦
          let (reached, phase, strategy) = stamp_vouches-facts cp s position e v in
          inr (s, (refl, checked, reached, phase, strategy))
    ]

last_success-WasCurrent :
    (cp : Checkpoint) (stamp : Option Stamp) (position time : ℕ)
    → ct_position cp ≡ ok position
    → last_success (some cp) stamp ≡ ok (some time)
    → WasCurrent cp stamp position time
unfolding last_success
last_success-WasCurrent cp stamp position time e h =
    elim (Result-cases (stamp_vouches (some cp) stamp)) [
      | inl (vouches, v) ↦ vouched-WasCurrent cp stamp position time vouches e v (
          ok-injective (
            sym (ap (λ m. m >>= (λ b. ok (later_of cp.last_success_at (stamp_time b stamp)))) v)
            ∙ h))
      | inr (problem, v) ↦ absurd (ground (arith, v, h))
    ]

is_recent-time :
    (interval now : ℕ) (o : Option ℕ)
    → is_recent interval now o ≡ true
    → (t : ℕ) × (o ≡ some t) × (now < t + interval)
is_recent-time interval now none h = absurd (ground arith)
is_recent-time interval now (some t) h = (t, refl, ltb→lt now (t + interval) h)

refresh_only-none : (row : UnchangedRow) → refresh_only row none ≡ ok true → ⊥
unfolding refresh_only
refresh_only-none row h = ground arith

checkpoint-IsCurrent :
    (checkpoints : Checkpoints) (stamp_of : ℕ → Option Stamp) (interval now : ℕ)
    (row : UnchangedRow) (o : Option Checkpoint) (success : Option ℕ)
    → checkpoints row.control_id ≡ o
    → last_success o (stamp_of row.control_id) ≡ ok success
    → refresh_only row o ≡ ok true
    → is_recent interval now success ≡ true
    → IsCurrent checkpoints stamp_of interval now row
checkpoint-IsCurrent checkpoints stamp_of interval now row none success f l r n =
    absurd (refresh_only-none row r)
checkpoint-IsCurrent checkpoints stamp_of interval now row (some cp) success f l r n =
    let (position, decoded) = refresh_only-position row cp r in
    let (time, e, recent) = is_recent-time interval now success n in
    record {
      cp = cp;
      found = f;
      position = position;
      decoded = decoded;
      refresh = refresh_only-IsRefresh now row cp position decoded r;
      time = time;
      confirmed =
          last_success-WasCurrent cp (stamp_of row.control_id) position time decoded (l ∙ ap ok e);
      recent = recent;
    }

-- What a skipped row's test says.
is_skipped-OnOk :
    (checkpoints : Checkpoints) (stamp_of : ℕ → Option Stamp) (interval now : ℕ)
    (row : UnchangedRow)
    → OnOk
        (λ b. b ≡ true → IsCurrent checkpoints stamp_of interval now row)
        (is_skipped checkpoints stamp_of interval now row)
unfolding is_skipped
is_skipped-OnOk checkpoints stamp_of interval now row =
    let cp = checkpoints row.control_id in
    OnOk-bind (λ b. b ≡ true → IsCurrent checkpoints stamp_of interval now row)
      (last_success cp (stamp_of row.control_id))
      (λ success.
        refresh_only row cp >>= (λ refresh. ok (refresh && is_recent interval now success)))
      (λ success e.
        OnOk-bind (λ b. b ≡ true → IsCurrent checkpoints stamp_of interval now row)
          (refresh_only row cp) (λ refresh. ok (refresh && is_recent interval now success))
          (λ refresh k h.
            checkpoint-IsCurrent checkpoints stamp_of interval now row cp success refl e
              (k ∙ ap ok (&&-eq-true refresh (is_recent interval now success) h).0)
              (&&-eq-true refresh (is_recent interval now success) h).1))

leave :
    {checkpoints : Checkpoints} {stamp_of : ℕ → Option Stamp} {interval now : ℕ}
    {row : UnchangedRow} {rows out : List UnchangedRow} (b : Bool)
    → (b ≡ true → IsCurrent checkpoints stamp_of interval now row)
    → Leaves checkpoints stamp_of interval now rows out
    → Leaves checkpoints stamp_of interval now (row ∷ rows) (if b then out else row ∷ out)
leave true h l = skipped (h refl) l
leave false h l = written l

rows_to_write-Leaves :
    (checkpoints : Checkpoints) (stamp_of : ℕ → Option Stamp) (interval now : ℕ)
    (rows : List UnchangedRow)
    → OnOk
        (Leaves checkpoints stamp_of interval now rows)
        (rows_to_write checkpoints stamp_of interval now rows)
unfolding rows_to_write
rows_to_write-Leaves checkpoints stamp_of interval now [] = end
rows_to_write-Leaves checkpoints stamp_of interval now (row ∷ rows) =
    OnOk-bind (Leaves checkpoints stamp_of interval now (row ∷ rows))
      (is_skipped checkpoints stamp_of interval now row)
      (λ skips.
        rows_to_write checkpoints stamp_of interval now rows
        >>= (λ later. ok (if skips then later else row ∷ later)))
      (λ skips e.
        OnOk-bind (Leaves checkpoints stamp_of interval now (row ∷ rows))
          (rows_to_write checkpoints stamp_of interval now rows)
          (λ later. ok (if skips then later else row ∷ later))
          (λ later k.
            leave skips
              (OnOk-ok (λ b. b ≡ true → IsCurrent checkpoints stamp_of interval now row) e
                (is_skipped-OnOk checkpoints stamp_of interval now row))
              (OnOk-ok (Leaves checkpoints stamp_of interval now rows) k
                (rows_to_write-Leaves checkpoints stamp_of interval now rows))))

either-OnOk :
    {A : Type 0} (P : A → Type 0) (b : Bool) (m n : Result Problem A)
    → OnOk P m
    → OnOk P n
    → OnOk P (if b then m else n)
either-OnOk P true m n h k = h
either-OnOk P false m n h k = k

-- Of the unchanged rows the bulk advance writes all but some, in their order. Each row that it leaves out has a checkpoint
-- that the advance, run at the time `now`, would leave at its position, status, select_list, begin version and
-- identities, so that it could only refresh the last success (and record a merge key); and the table was confirmed within the interval,
-- by its own last success or by a check of its whole database at a version that its incremental change tracking
-- checkpoint has reached.
pub bulk_rows_to_write-Leaves :
    (unchanged : List UnchangedRow) (checkpoints : Checkpoints) (stamp_of : ℕ → Option Stamp)
    (interval now : ℕ)
    → OnOk
        (Leaves checkpoints stamp_of interval now unchanged)
        (bulk_rows_to_write unchanged checkpoints stamp_of interval now)
unfolding bulk_rows_to_write
bulk_rows_to_write-Leaves unchanged checkpoints stamp_of interval now =
    either-OnOk (Leaves checkpoints stamp_of interval now unchanged) (interval == 0) (ok unchanged)
      (rows_to_write checkpoints stamp_of interval now unchanged)
      (all_written checkpoints stamp_of interval now unchanged)
      (rows_to_write-Leaves checkpoints stamp_of interval now unchanged)
