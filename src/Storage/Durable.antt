-- ===== src/Storage/Durable.antt =====
-- What a commit leaves on disk, in crates/hypercarry-storage/src/dataset.rs.
mod Groups
mod Partitions
pub mod Commits
use Prim.Native.Nat.{Ordering}
use hypercarry.Base.{
  ℕ, ◌≡◌, refl, sym, ap, subst, ◌∙◌, ◌⊎◌, inl, inr, Bool, true, false, not, ◌&&◌, ◌||◌, Option,
  some, none, is_some, any, List, [], ◌∷◌, ◌++◌, In, In-All, All, All-map, if◌then◌else◌, arith,
  Bool-cases,
}
use hypercarry.Base.Int.{ℤ, ltb_ℤ, eqb_ℤ}
use hypercarry.Base.Text.{Text, text_eq, text_eq_sound}
use hypercarry.Base.Outcome.{
  Outcome, panic, value, fault, ◌>>=◌, ◌>>◌, refuse, or_fault, bind-value, refuse-value,
  or_fault-value, value-injective,
}
use hypercarry.Base.Compare.{
  IsOrder, compare_list, compare_text, compare_text-IsOrder, compare_list-IsOrder,
}
use hypercarry.Base.Ordered.{
  Entries, lookup, insert, values, choose, lookup-insert, insert-All, lookup-In,
}
use hypercarry.Decimal.{Decimal}
use hypercarry.Storage.{
  SettledFundingIdentity, SettledFundingRecord, DatasetError, invalid_parquet, contract,
  merge_records,
}
use hypercarry.Storage.Merged.{IsMerged, merge_records-IsMerged}
use hypercarry.Storage.Dataset.{
  PathBuf, CommitReport, StreamIdentity, CheckpointCandidate, ResumeCheckpoint, Candidates, Write,
  written, not_written, unsynced, Files, Dataset, Committed, compare_path, network_eq, is_in,
  partition_directory, push_row, group_rows, put_candidate, add_candidates, candidate_of, stream_of,
  compare_stream, is_stale, checkpoint_of, resume_checkpoint, advance_checkpoint, and_next,
  replace_file, store_checkpoint, stream_directory,
}
use hypercarry.Storage.Commit.{
  Merge, Totals, stored_rows, rows_of, record_eq, exists, store_partition, rows_eq, merge_partition,
  write_partition, commit_partition, commit_partitions, commit_checkpoints, commit,
}

path_IsOrder : IsOrder compare_path
path_IsOrder = compare_list-IsOrder compare_text-IsOrder

panic-ne-value : {A : Type 0} (a : A) → ◌≡◌ {A = Outcome DatasetError A} panic (value a) → ⊥
panic-ne-value a h = cc

fault-ne-value :
    {A : Type 0} (e : DatasetError) (a : A)
    → ◌≡◌ {A = Outcome DatasetError A} (fault e) (value a)
    → ⊥
fault-ne-value e a h = cc

-- The identity of the row that a checkpoint, or a candidate for one, stands for.
abbrev pub marked : ResumeCheckpoint → SettledFundingIdentity
marked cp = record {
  network = cp.network;
  venue = cp.venue;
  coin = cp.coin;
  settlement_time = cp.last_settlement_time_ms;
}

module _ {Num : Type 0} where
  -- A row of some partition has this identity.
  abbrev pub HasRow : Dataset Num → SettledFundingIdentity → Type 0
  HasRow s i =
      (directory : PathBuf) × (rows : List (SettledFundingRecord Num)) × (r : SettledFundingRecord
        Num)
      × (lookup compare_path directory s.partitions ≡ some rows)
      × In r rows
      × (r.identity ≡ i)

  -- Every checkpoint stands for a row.
  abbrev pub IsBacked : Dataset Num → Type 0
  IsBacked s = All (λ e. HasRow s (marked e.1)) s.checkpoints

  abbrev AllMarked : Dataset Num → Candidates → Type 0
  AllMarked s m = All (λ e. HasRow s (marked (checkpoint_of e.0 e.1))) m

  -- No identity is lost, and the checkpoints stay backed.
  pub record Keeps (s s' : Dataset Num) : Type 0 where
    pub rows : (i : SettledFundingIdentity) → HasRow s i → HasRow s' i
    pub backed : IsBacked s → IsBacked s'

  Keeps-refl : (s : Dataset Num) → Keeps s s
  Keeps-refl s = record { rows = λ i h. h; backed = λ h. h }

  -- What a step leaves in every outcome, and what it gives besides on success.
  abbrev Ends :
      {A : Type 0} → (Dataset Num → Type 0) → (Dataset Num → A → Type 0) → Committed Num A → Type 0
  Ends {A} P Q o = P o.0 × ((a : A) → o.1 ≡ value a → Q o.0 a)

  next-Ends :
      {A B : Type 0} (P : Dataset Num → Type 0) (Q : Dataset Num → A → Type 0)
      (R : Dataset Num → B → Type 0) (o : Committed Num A)
      (next : Dataset Num → A → Committed Num B)
      → Ends P Q o
      → ((s : Dataset Num) (a : A) → P s → Q s a → Ends P R (next s a))
      → Ends P R (and_next o next)
  next-Ends P Q R (s, panic) next e h = (e.0, λ b h'. absurd (panic-ne-value b h'))
  next-Ends P Q R (s, fault x) next e h = (e.0, λ b h'. absurd (fault-ne-value x b h'))
  next-Ends P Q R (s, value a) next e h = h s a e.0 (e.1 a refl)

  -- A step after a value that was computed from the dataset.
  from-Ends :
      {A B : Type 0} (P : Dataset Num → Type 0) (R : Dataset Num → B → Type 0) (s : Dataset Num)
      (o : Outcome DatasetError A) (next : Dataset Num → A → Committed Num B)
      → P s
      → ((a : A) → o ≡ value a → Ends P R (next s a))
      → Ends P R (and_next (s, o) next)
  from-Ends P R s panic next p h = (p, λ b h'. absurd (panic-ne-value b h'))
  from-Ends P R s (fault x) next p h = (p, λ b h'. absurd (fault-ne-value x b h'))
  from-Ends P R s (value a) next p h = h a refl

  store_partition-HasRow :
      (directory : PathBuf) (merged : List (SettledFundingRecord Num)) (s : Dataset Num)
      (c : SettledFundingRecord Num)
      → In c merged
      → HasRow (store_partition directory merged s) c.identity
  store_partition-HasRow directory merged s c i = (
    directory,
    merged,
    c,
    lookup-insert path_IsOrder directory directory merged s.partitions
        ∙ ap
            (λ o.
              choose o (lookup compare_path directory s.partitions) (some merged)
                (lookup compare_path directory s.partitions))
            (path_IsOrder.itself directory),
    i,
    refl,
  )

  -- Rows that take the identities of those before.
  abbrev Covers : List (SettledFundingRecord Num) → List (SettledFundingRecord Num) → Type 0
  Covers merged existing =
      (r : SettledFundingRecord Num)
      → In r existing
      → (c : SettledFundingRecord Num) × In c merged × (c.identity ≡ r.identity)

  store_partition-Keeps :
      (directory : PathBuf) (merged : List (SettledFundingRecord Num)) (s : Dataset Num)
      → Covers merged (stored_rows directory s)
      → Keeps s (store_partition directory merged s)
  store_partition-Keeps directory merged s covers = record {
    rows = keeps;
    backed = λ h. All-map (λ e. keeps (marked e.1)) s.checkpoints h;
  }
    where
      keeps :
          (i : SettledFundingIdentity) → HasRow s i → HasRow (store_partition directory merged s) i
      keeps i (dir, rows, r, found, member, e) = at (compare_path dir directory) refl
        where
          found_in :
              (order : Ordering)
              → compare_path dir directory ≡ order
              → lookup compare_path dir (insert compare_path directory merged s.partitions)
                ≡ choose order
                    (lookup compare_path dir s.partitions)
                    (some merged)
                    (lookup compare_path dir s.partitions)
          found_in order same =
              lookup-insert path_IsOrder dir directory merged s.partitions
              ∙ ap
                  (λ o.
                    choose o (lookup compare_path dir s.partitions) (some merged)
                      (lookup compare_path dir s.partitions))
                  same

          at :
              (order : Ordering)
              → compare_path dir directory ≡ order
              → HasRow (store_partition directory merged s) i
          at Ordering.lt o = (dir, rows, r, found_in Ordering.lt o ∙ found, member, e)
          at Ordering.gt o = (dir, rows, r, found_in Ordering.gt o ∙ found, member, e)
          at Ordering.eq o =
              let same = path_IsOrder.same dir directory o in
              let (c, inside, e') = covers r (
                subst (In r)
                  (sym
                    (ap rows_of (ap (λ x. lookup compare_path x s.partitions) (sym same) ∙ found)))
                  member) in
              (dir, merged, c, found_in Ordering.eq o, inside, e' ∙ e)

  Keeps-trans : (s t u : Dataset Num) → Keeps s t → Keeps t u → Keeps s u
  Keeps-trans s t u a b = record {
    rows = λ i h. b.rows i (a.rows i h);
    backed = λ h. b.backed (a.backed h);
  }

  AllMarked-Keeps : (s t : Dataset Num) (m : Candidates) → Keeps s t → AllMarked s m → AllMarked t m
  AllMarked-Keeps s t m k h = All-map (λ e. k.rows (marked (checkpoint_of e.0 e.1))) m h

  put_candidate-AllMarked :
      (s : Dataset Num) (stream : StreamIdentity) (c : CheckpointCandidate)
      (entry : Option CheckpointCandidate) (m : Candidates)
      → HasRow s (marked (checkpoint_of stream c))
      → AllMarked s m
      → AllMarked s (put_candidate stream c entry m)
  unfolding put_candidate
  put_candidate-AllMarked s stream c none m h a =
      insert-All (λ e. HasRow s (marked (checkpoint_of e.0 e.1))) compare_stream stream c m h a
  put_candidate-AllMarked s stream c (some x) m h a =
      elim (Bool-cases (ltb_ℤ x.last_settlement_time_ms c.last_settlement_time_ms)) [
        | inl later ↦ rw later (
            insert-All (λ e. HasRow s (marked (checkpoint_of e.0 e.1))) compare_stream stream c m h
              a)
        | inr not_later ↦ rw not_later a
      ]

  add_candidates-AllMarked :
      (s : Dataset Num) (rows : List (SettledFundingRecord Num)) (m : Candidates)
      → ((r : SettledFundingRecord Num) → In r rows → HasRow s r.identity)
      → AllMarked s m
      → AllMarked s (add_candidates rows m)
  unfolding add_candidates
  add_candidates-AllMarked s [] m h a = a
  add_candidates-AllMarked s (r ∷ rest) m h a =
      add_candidates-AllMarked s rest
        (put_candidate (stream_of r) (candidate_of r) (lookup compare_stream (stream_of r) m) m)
        (λ x i. h x (inr i))
        (put_candidate-AllMarked s (stream_of r) (candidate_of r)
          (lookup compare_stream (stream_of r) m) m (h r (inl refl)) a)

  store_checkpoint-Keeps :
      (path : PathBuf) (cp : ResumeCheckpoint) (s : Dataset Num)
      → HasRow s (marked cp)
      → Keeps s (store_checkpoint path cp s)
  store_checkpoint-Keeps path cp s h = record {
    rows = λ i r. r;
    backed = λ b. insert-All (λ e. HasRow s (marked e.1)) compare_path path cp s.checkpoints h b;
  }

  replace_file-Ends :
      (P : Dataset Num → Type 0) (w : Write) (new old : Dataset Num)
      → P new
      → P old
      → Ends P (λ s b. s ≡ new) (replace_file w new old)
  replace_file-Ends P written new old n o = (n, λ b h. refl)
  replace_file-Ends P (not_written e) new old n o = (o, λ b h. absurd (fault-ne-value e b h))
  replace_file-Ends P (unsynced e) new old n o = (n, λ b h. refl)

  advance_checkpoint-Keeps :
      (files : Files) (stream : StreamIdentity) (c : CheckpointCandidate) (s : Dataset Num)
      → HasRow s (marked (checkpoint_of stream c))
      → Keeps s (advance_checkpoint files stream c s).0
  unfolding advance_checkpoint
  advance_checkpoint-Keeps files stream c s h =
      (from-Ends (Keeps s) (λ t b. Unit {0}) s (resume_checkpoint files stream s) _ (Keeps-refl s)
        λ existing e. at (is_stale existing c)).0
    where
      at :
          (b : Bool)
          → Ends
              (Keeps s)
              (λ t b'. Unit {0})
              (if b
                then (s, value false)
                else replace_file
                    (files.writes_checkpoint (stream_directory stream))
                    (store_checkpoint (stream_directory stream) (checkpoint_of stream c) s)
                    s)
      at true = (Keeps-refl s, λ b h'. tt)
      at false = (
        (replace_file-Ends (Keeps s) (files.writes_checkpoint (stream_directory stream)) _ s
            (store_checkpoint-Keeps (stream_directory stream) (checkpoint_of stream c) s h)
            (Keeps-refl s)).0,
        λ b h'. tt,
      )
