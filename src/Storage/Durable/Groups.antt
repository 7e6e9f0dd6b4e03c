-- ===== src/Storage/Durable/Groups.antt =====
-- The rows of a commit by their partition, in crates/hypercarry-storage/src/dataset.rs.
use Prim.Native.Nat.{Ordering}
use hypercarry.Base.{
  ◌≡◌, refl, sym, ap, subst, ◌∙◌, inl, inr, Option, some, none, List, [], ◌∷◌, ◌++◌, In,
}
use hypercarry.Base.Int.{ℤ}
use hypercarry.Base.Text.{Text}
use hypercarry.Base.Outcome.{value, or_fault-value, value-injective}
use hypercarry.Base.Ordered.{Entries, lookup, insert, choose, lookup-insert}
use hypercarry.Storage.{SettledFundingRecord, contract}
use hypercarry.Storage.Dataset.{PathBuf, compare_path, partition_directory, push_row, group_rows}
use hypercarry.Storage.Durable.{path_IsOrder}

pub append_left : {A : Type 0} (x : A) (xs ys : List A) → In x xs → In x (xs ++ ys)
append_left x (z ∷ zs) ys (inl e) = inl e
append_left x (z ∷ zs) ys (inr i) = inr (append_left x zs ys i)
append_left x [] ys i = absurd i

pub append_right : {A : Type 0} (x : A) (xs ys : List A) → In x ys → In x (xs ++ ys)
append_right x [] ys i = i
append_right x (z ∷ zs) ys i = inr (append_right x zs ys i)

module _ {Num : Type 0} where
  -- A record is in the group of some directory.
  abbrev pub Grouped :
      SettledFundingRecord Num → Entries PathBuf (List (SettledFundingRecord Num)) → Type 0
  Grouped r m =
      (directory : PathBuf) × (rows : List (SettledFundingRecord Num)) × (lookup compare_path
          directory m
        ≡ some rows)
      × In r rows

  push_row-In :
      (r : SettledFundingRecord Num) (entry : Option (List (SettledFundingRecord Num)))
      → In r (push_row r entry)
  push_row-In r none = inl refl
  push_row-In r (some rows) = append_right r rows (r ∷ []) (inl refl)

  regrouped :
      (x r : SettledFundingRecord Num) (directory : PathBuf)
      (m : Entries PathBuf (List (SettledFundingRecord Num)))
      → Grouped x m
      → Grouped x (insert compare_path directory (push_row r (lookup compare_path directory m)) m)
  regrouped x r directory m (dir, rows, found, i) = at (compare_path dir directory) refl
    where
      found_in :
          (order : Ordering)
          → compare_path dir directory ≡ order
          → lookup compare_path dir
              (insert compare_path directory (push_row r (lookup compare_path directory m)) m)
            ≡ choose order
                (lookup compare_path dir m)
                (some (push_row r (lookup compare_path directory m)))
                (lookup compare_path dir m)
      found_in order same =
          lookup-insert path_IsOrder dir directory (push_row r (lookup compare_path directory m)) m
          ∙ ap
              (λ o.
                choose o (lookup compare_path dir m)
                  (some (push_row r (lookup compare_path directory m))) (lookup compare_path dir m))
              same

      at :
          (order : Ordering)
          → compare_path dir directory ≡ order
          → Grouped x
              (insert compare_path directory (push_row r (lookup compare_path directory m)) m)
      at Ordering.lt o = (dir, rows, found_in Ordering.lt o ∙ found, i)
      at Ordering.gt o = (dir, rows, found_in Ordering.gt o ∙ found, i)
      at Ordering.eq o =
          let same = path_IsOrder.same dir directory o in
          (
            dir,
            push_row r (lookup compare_path directory m),
            found_in Ordering.eq o,
            subst (λ y. In x (push_row r y))
                (sym (ap (λ p. lookup compare_path p m) (sym same) ∙ found))
                (append_left x rows (r ∷ []) i),
          )

  pushed :
      (r : SettledFundingRecord Num) (directory : PathBuf)
      (m : Entries PathBuf (List (SettledFundingRecord Num)))
      → Grouped r (insert compare_path directory (push_row r (lookup compare_path directory m)) m)
  pushed r directory m = (
    directory,
    push_row r (lookup compare_path directory m),
    lookup-insert path_IsOrder directory directory (push_row r (lookup compare_path directory m)) m
        ∙ ap
            (λ o.
              choose o (lookup compare_path directory m)
                (some (push_row r (lookup compare_path directory m)))
                (lookup compare_path directory m))
            (path_IsOrder.itself directory),
    push_row-In r (lookup compare_path directory m),
  )

  pub group_rows-Grouped :
      (date : ℤ → Option Text) (records : List (SettledFundingRecord Num))
      (m m' : Entries PathBuf (List (SettledFundingRecord Num)))
      → group_rows date records m ≡ value m'
      → ((x : SettledFundingRecord Num) → Grouped x m → Grouped x m')
        × ((x : SettledFundingRecord Num) → In x records → Grouped x m')
  unfolding group_rows
  group_rows-Grouped date [] m m' h =
      (λ x g. subst (Grouped x) (value-injective m m' h) g, λ x i. absurd i)
  group_rows-Grouped date (r ∷ rest) m m' h =
      let (directory, e, h1) = or_fault-value (partition_directory date r) contract _ h in
      let (keeps, holds) =
        group_rows-Grouped date rest
          (insert compare_path directory (push_row r (lookup compare_path directory m)) m) m' h1 in
      (λ x g. keeps x (regrouped x r directory m g), λ x i. at directory keeps holds x i)
    where
      at :
          (directory : PathBuf)
          → ((x : SettledFundingRecord Num)
              → Grouped x
                  (insert compare_path directory (push_row r (lookup compare_path directory m)) m)
              → Grouped x m')
          → ((x : SettledFundingRecord Num) → In x rest → Grouped x m')
          → (x : SettledFundingRecord Num) → In x (r ∷ rest)
          → Grouped x m'
      at directory keeps holds x (inl e) = keeps x (
          subst
            (λ y.
              Grouped y
                (insert compare_path directory (push_row r (lookup compare_path directory m)) m))
            e (pushed r directory m))
      at directory keeps holds x (inr i) = holds x i
