-- ===== src/Storage/Durable/Commits.antt =====
-- A whole commit of crates/hypercarry-storage/src/dataset.rs, whatever its reads and writes give.
use hypercarry.Base.{
  ℕ, ◌+◌, ◌≡◌, sym, subst, inl, inr, Option, List, [], ◌∷◌, In, if◌then◌else◌, length,
}
use hypercarry.Base.Int.{ℤ}
use hypercarry.Base.Text.{Text}
use hypercarry.Base.Outcome.{value, value-injective}
use hypercarry.Base.Ordered.{Entries, values, lookup-In}
use hypercarry.Decimal.{Decimal}
use hypercarry.Storage.{SettledFundingIdentity, SettledFundingRecord}
use hypercarry.Storage.Dataset.{
  PathBuf, CommitReport, Candidates, Files, Dataset, Committed, group_rows, add_candidates,
  advance_checkpoint, and_next,
}
use hypercarry.Storage.Commit.{
  Merge, Totals, stored_rows, merge_partition, write_partition, counted, commit_partition,
  commit_partitions, commit_checkpoints, fresh_report, commit,
}
use hypercarry.Storage.Durable.{
  path_IsOrder, HasRow, IsBacked, AllMarked, Keeps, Keeps-refl, Keeps-trans, Ends, next-Ends,
  from-Ends, AllMarked-Keeps, add_candidates-AllMarked, advance_checkpoint-Keeps,
}
use hypercarry.Storage.Durable.Groups.{append_right, Grouped, group_rows-Grouped}
use hypercarry.Storage.Durable.Partitions.{
  Finds, Promised, AllThere, merge_partition-Promised, IsMerged-Covers, write_partition-Ends,
}

module _ {Num : Type 0} ⦃d : Decimal Num⦄ where
  -- After one partition: the candidates still stand for rows, and the incoming records are there.
  abbrev Held : List (SettledFundingRecord Num) → Candidates → Dataset Num → Totals → Type 0
  Held incoming m t totals = AllMarked t totals.1 × AllThere incoming t

  commit_partition-Ends :
      (files : Files) (date : ℤ → Option Text) (directory : PathBuf)
      (incoming : List (SettledFundingRecord Num)) (totals : Totals) (s : Dataset Num)
      → Finds files
      → AllMarked s totals.1
      → Ends
          (Keeps s)
          (Held incoming totals.1)
          (commit_partition files date directory incoming totals s)
  unfolding commit_partition
  commit_partition-Ends files date directory incoming (report, m) s finds a =
      from-Ends (Keeps s) (Held incoming m) s (merge_partition files date directory incoming s) _
        (Keeps-refl s)
        λ merge e.
          merged merge
            (merge_partition-Promised files date directory incoming s merge (finds directory) e)
    where
      merged :
          (merge : Merge Num)
          → Promised directory incoming s merge
          → Ends (Keeps s) (Held incoming m) (
              and_next (write_partition files directory merge s) λ s2 written.
                (s2, value (counted merge incoming written report, add_candidates merge.1 m)))
      merged (existing, rows) (same, made) =
          next-Ends (Keeps s) (λ t b. AllThere rows t) (Held incoming m)
            (write_partition files directory (existing, rows) s) _
            (subst
              (λ x.
                Ends (Keeps s) (λ t b. AllThere rows t)
                  (write_partition files directory (x, rows) s))
              same (write_partition-Ends files directory incoming s rows made))
            λ t b keeps there. (
              keeps,
              λ totals h. subst (Held incoming m t) (value-injective _ totals h) (
                add_candidates-AllMarked t rows m there (AllMarked-Keeps s t m keeps a),
                λ r i. arrived t there r (
                    IsMerged-Covers _ rows made r
                      (append_right r (stored_rows directory s) incoming i)),
              ),
            )
        where
          arrived :
              (t : Dataset Num)
              → AllThere rows t
              → (r : SettledFundingRecord Num)
              → (c : SettledFundingRecord Num) × In c rows × (c.identity ≡ r.identity)
              → HasRow t r.identity
          arrived t there r (c, inside, e) = subst (HasRow t) e (there c inside)

  -- After all of them.
  abbrev AllHeld : Entries PathBuf (List (SettledFundingRecord Num)) → Dataset Num → Totals → Type 0
  AllHeld groups t totals =
      AllMarked t totals.1
      × ((rows : List (SettledFundingRecord Num)) → In rows (values groups) → AllThere rows t)

  commit_partitions-Ends :
      (files : Files) (date : ℤ → Option Text)
      (groups : Entries PathBuf (List (SettledFundingRecord Num))) (totals : Totals)
      (s : Dataset Num)
      → Finds files
      → AllMarked s totals.1
      → Ends (Keeps s) (AllHeld groups) (commit_partitions files date groups totals s)
  unfolding commit_partitions
  commit_partitions-Ends files date [] totals s finds a = (
    Keeps-refl s,
    λ t h. (subst (λ x. AllMarked s x.1) (value-injective _ t h) a, λ rows i. absurd i),
  )
  commit_partitions-Ends files date ((directory, incoming) ∷ rest) totals s finds a =
      next-Ends (Keeps s) (Held incoming totals.1) (AllHeld ((directory, incoming) ∷ rest))
        (commit_partition files date directory incoming totals s) _
        (commit_partition-Ends files date directory incoming totals s finds a)
        λ t totals' keeps held.
          onward t totals' keeps held
            (commit_partitions-Ends files date rest totals' t finds held.0)
    where
      onward :
          (t : Dataset Num) (totals' : Totals)
          → Keeps s t
          → Held incoming totals.1 t totals'
          → {o : Committed Num Totals} → Ends (Keeps t) (AllHeld rest) o
          → Ends (Keeps s) (AllHeld ((directory, incoming) ∷ rest)) o
      onward t totals' keeps held {o = o} (keeps', held') = (
        Keeps-trans s t o.0 keeps keeps',
        λ final h. ((held' final h).0, λ rows i. at o.0 keeps' (held' final h).1 rows i),
      )
        where
          at :
              (u : Dataset Num)
              → Keeps t u
              → ((rows : List (SettledFundingRecord Num)) → In rows (values rest) → AllThere rows u)
              → (rows : List (SettledFundingRecord Num)) → In rows (incoming ∷ values rest)
              → AllThere rows u
          at u keeps' later rows (inl e) r i =
              keeps'.rows r.identity (held.1 r (subst (In r) (sym e) i))
          at u keeps' later rows (inr j) r i = later rows j r i

  commit_checkpoints-Keeps :
      (files : Files) (m : Candidates) (n : ℕ) (s : Dataset Num)
      → AllMarked s m
      → Keeps s (commit_checkpoints files m n s).0
  unfolding commit_checkpoints
  commit_checkpoints-Keeps files [] n s a = Keeps-refl s
  commit_checkpoints-Keeps files ((stream, c) ∷ rest) n s a =
      (next-Ends (Keeps s) (λ t b. Unit {0}) (λ t b. Unit {0}) (advance_checkpoint files stream c s)
        _ (advance_checkpoint-Keeps files stream c s a.0, λ b h. tt)
        λ t b keeps u. (
          Keeps-trans s t _ keeps (
              commit_checkpoints-Keeps files rest (if b then n + 1 else n) t
                (AllMarked-Keeps s t rest keeps a.1)),
          λ b' h. tt,
        )).0

  -- What a commit leaves on disk: no identity lost, backed checkpoints, and on success all records.
  pub record IsDurable (records : List (SettledFundingRecord Num)) (s : Dataset Num)
      (o : Committed Num CommitReport) : Type 0 where
    pub keeps : (i : SettledFundingIdentity) → HasRow s i → HasRow o.0 i
    pub backed : IsBacked s → IsBacked o.0
    pub stored :
        (report : CommitReport)
        → o.1 ≡ value report
        → (r : SettledFundingRecord Num) → In r records
        → HasRow o.0 r.identity

  -- Where the first test whether a partition exists finds each that is there, whatever the other tests,
  -- the reads and the writes of a commit give, and whether it returns or fails: no identity that had a row
  -- loses it; if every checkpoint of the dataset stood for a row of its stream and time, every
  -- checkpoint still does; and where the commit returns, each of its records has a row of its identity.
  pub commit-IsDurable :
      (files : Files) (date : ℤ → Option Text) (records : List (SettledFundingRecord Num))
      (s : Dataset Num)
      → Finds files
      → IsDurable records s (commit files date records s)
  unfolding commit
  commit-IsDurable files date records s finds = durable _ (
      from-Ends (Keeps s) Stored s (group_rows date records []) _ (Keeps-refl s) λ groups e.
        next-Ends (Keeps s) (AllHeld groups) Stored
          (commit_partitions files date groups (fresh_report (length records), []) s) _
          (commit_partitions-Ends files date groups (fresh_report (length records), []) s finds tt)
          λ t totals keeps held.
            next-Ends (Keeps s) (λ u n. Keeps t u) Stored (commit_checkpoints files totals.1 0 t) _
              (
                Keeps-trans s t _ keeps (commit_checkpoints-Keeps files totals.1 0 t held.0),
                λ n h. commit_checkpoints-Keeps files totals.1 0 t held.0,
              )
              λ u n keeps' later. (
                keeps',
                λ report h r i.
                    found groups t u later held.1 r
                      ((group_rows-Grouped date records [] groups e).1 r i),
              ))
    where
      Stored : Dataset Num → CommitReport → Type 0
      Stored t report = (r : SettledFundingRecord Num) → In r records → HasRow t r.identity

      durable : (o : Committed Num CommitReport) → Ends (Keeps s) Stored o → IsDurable records s o
      durable o (keeps, stored) = record {
        keeps = keeps.rows;
        backed = keeps.backed;
        stored = stored;
      }

      found :
          (groups : Entries PathBuf (List (SettledFundingRecord Num))) (t u : Dataset Num)
          → Keeps t u
          → ((rows : List (SettledFundingRecord Num)) → In rows (values groups) → AllThere rows t)
          → (r : SettledFundingRecord Num) → Grouped r groups
          → HasRow u r.identity
      found groups t u later there r (directory, rows, at, i) =
          later.rows r.identity (there rows (lookup-In path_IsOrder directory rows groups at) r i)
