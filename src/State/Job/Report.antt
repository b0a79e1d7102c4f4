-- ===== src/State/Job/Report.antt =====
-- What the snapshot job does and reports: the subjects that it takes, in order, and their outcomes.
use mathlib.Core.List.{append_assoc}
use timeline.Base.{
  ℕ, zero, suc, ◌+◌, ◌-◌, ◌≤◌, ◌<◌, min, String, ◌≡◌, refl, sym, ap, ◌∙◌, Bool, true, false, not,
  List, [], ◌∷◌, ◌++◌, is_empty, length, length-append, length-take, take, drop, page, select, ltb,
  leb, Bool-cases, drop-drop, take_of_length-le, append-nil, arith, inl, inr, Outcome, ok, raise,
}
use timeline.State.Job.{
  SnapshotRun, no_run, skipped, failed, page_size, add_error, is_validation, count, run_page,
  run_pages, run_job,
}

module _ {S A : Type 0} where
  -- One snapshot for each id, each on the store that the one before leaves.
  abbrev pub replay : (S → String → S × Outcome A) → List String → S → S × List (String × Outcome A)
  replay step [] st = (st, [])
  replay step (s ∷ ids) st =
      let (st', o) = step st s in let (last, rest) = replay step ids st' in (last, (s, o) ∷ rest)

module _ {A : Type 0} where
  abbrev pub is_created : String × Outcome A → Bool
  is_created (s, ok a) = true
  is_created (s, raise e) = false

  abbrev pub is_skipped : String × Outcome A → Bool
  is_skipped (s, ok a) = false
  is_skipped (s, raise e) = is_validation e

  abbrev pub is_failed : String × Outcome A → Bool
  is_failed (s, ok a) = false
  is_failed (s, raise e) = not (is_validation e)

  abbrev pub ids_of : List (String × Outcome A) → List String
  ids_of [] = []
  ids_of ((s, o) ∷ entries) = s ∷ ids_of entries

  -- The report of a run with these outcomes.
  abbrev pub report : List (String × Outcome A) → SnapshotRun
  report entries = record {
    subjects_processed = length entries;
    snapshots_created_or_updated = length (select is_created entries);
    skipped_no_events = length (select is_skipped entries);
    error_count = length (select is_failed entries);
    error_subject_ids = take 50 (ids_of (select is_failed entries));
  }

  abbrev tally : List (String × Outcome A) → SnapshotRun → SnapshotRun
  tally [] run = run
  tally ((s, o) ∷ entries) run = tally entries (count s o run)

  -- A report to which outcomes are added.
  abbrev after : List (String × Outcome A) → SnapshotRun → SnapshotRun
  after entries run = record {
    subjects_processed = run.subjects_processed + length entries;
    snapshots_created_or_updated =
        run.snapshots_created_or_updated + length (select is_created entries);
    skipped_no_events = run.skipped_no_events + length (select is_skipped entries);
    error_count = run.error_count + length (select is_failed entries);
    error_subject_ids = take 50 (run.error_subject_ids ++ ids_of (select is_failed entries));
  }

take-append-exact : {A : Type 0} (n : ℕ) (xs ys : List A) → length xs ≡ n → take n (xs ++ ys) ≡ xs
take-append-exact zero [] ys h = refl
take-append-exact zero (x ∷ xs) ys h = absurd (omega (arith, h))
take-append-exact (suc n) [] ys h = absurd (omega (arith, h))
take-append-exact (suc n) (x ∷ xs) ys h = ap (◌∷◌ x) (take-append-exact n xs ys (omega (arith, h)))

add_error-take :
    (s : String) (ids rest : List String)
    → length ids ≤ 50
    → take 50 (add_error s ids ++ rest) ≡ take 50 (ids ++ s ∷ rest)
add_error-take s ids rest h = elim (Bool-cases (ltb (length ids) 50)) [
  | inl room ↦ rw room (ap (take 50) (append_assoc ids (s ∷ []) rest))
  | inr full ↦
      let e : length ids ≡ 50 = ground (arith, h) in
      rw full (take-append-exact 50 ids rest e ∙ sym (take-append-exact 50 ids (s ∷ rest) e))
]

add_error-length :
    (s : String) (ids : List String) → length ids ≤ 50 → length (add_error s ids) ≤ 50
add_error-length s ids h = ground (arith, h, length-append ids (s ∷ []))

run-eq :
    (p p' c c' k k' e e' : ℕ) (ids ids' : List String)
    → p ≡ p'
    → c ≡ c'
    → k ≡ k'
    → e ≡ e'
    → ids ≡ ids'
    → ◌≡◌ {A = SnapshotRun}
        (record {
          subjects_processed = p;
          snapshots_created_or_updated = c;
          skipped_no_events = k;
          error_count = e;
          error_subject_ids = ids;
        })
        (record {
          subjects_processed = p';
          snapshots_created_or_updated = c';
          skipped_no_events = k';
          error_count = e';
          error_subject_ids = ids';
        })
run-eq p p' c c' k k' e e' ids ids' hp hc hk he hi = rw (hp, hc, hk, he, hi) refl

module _ {A : Type 0} where
  tally-after :
      (entries : List (String × Outcome A)) (run : SnapshotRun)
      → length run.error_subject_ids ≤ 50
      → tally entries run ≡ after entries run
  tally-after [] run h =
      run-eq _ _ _ _ _ _ _ _ _ _ (omega arith) (omega arith) (omega arith) (omega arith) (
        sym (
          ap (take 50) (append-nil run.error_subject_ids)
          ∙ take_of_length-le 50 run.error_subject_ids h))
  tally-after ((s, ok a) ∷ entries) run h =
      tally-after entries (count s (ok a) run) h
      ∙ run-eq _ _ _ _ _ _ _ _ _ _ (omega arith) (omega arith) (omega arith) (omega arith) refl
  tally-after ((s, raise e) ∷ entries) run h = elim (Bool-cases (is_validation e)) [
    | inl v ↦ rw v (
        tally-after entries (skipped run) h
        ∙ run-eq _ _ _ _ _ _ _ _ _ _ (omega arith) (omega arith) (omega arith) (omega arith) refl)
    | inr f ↦ rw f (
        tally-after entries (failed s run) (add_error-length s run.error_subject_ids h)
        ∙ run-eq _ _ _ _ _ _ _ _ _ _ (omega arith) (omega arith) (omega arith) (omega arith)
            (add_error-take s run.error_subject_ids (ids_of (select is_failed entries)) h))
  ]

  report-eq : (entries : List (String × Outcome A)) → tally entries no_run ≡ report entries
  report-eq entries =
      tally-after entries no_run (omega arith)
      ∙ run-eq _ _ _ _ _ _ _ _ _ _ (omega arith) (omega arith) (omega arith) (omega arith) refl

  tally-append :
      (xs ys : List (String × Outcome A)) (run : SnapshotRun)
      → tally (xs ++ ys) run ≡ tally ys (tally xs run)
  tally-append [] ys run = refl
  tally-append ((s, o) ∷ xs) ys run = tally-append xs ys (count s o run)

  count-processed :
      (s : String) (o : Outcome A) (run : SnapshotRun)
      → (count s o run).subjects_processed ≡ suc run.subjects_processed
  count-processed s (ok a) run = refl
  count-processed s (raise e) run = elim (Bool-cases (is_validation e)) [
    | inl v ↦ rw v refl
    | inr v ↦ rw v refl
  ]

  tally-processed :
      (entries : List (String × Outcome A)) (run : SnapshotRun)
      → (tally entries run).subjects_processed ≡ run.subjects_processed + length entries
  tally-processed [] run = omega arith
  tally-processed ((s, o) ∷ entries) run =
      let counted = count-processed s o run in tally-processed entries (count s o run) ∙ omega arith

take-split :
    {A : Type 0} (k n : ℕ) (xs : List A) → n ≤ k → take k xs ≡ take n xs ++ take (k - n) (drop n xs)
take-split k zero xs h = let e : k - 0 ≡ k = omega arith in rw e refl
take-split zero (suc n) xs h = absurd (omega (arith, h))
take-split (suc k) (suc n) [] h =
    let e : suc k - suc n ≡ k - n = omega arith in rw e (take_nil (k - n))
  where
    take_nil : {A : Type 0} (m : ℕ) → [] ≡ take {A = A} m []
    take_nil zero = refl
    take_nil (suc m) = refl
take-split (suc k) (suc n) (x ∷ xs) h =
    let e : suc k - suc n ≡ k - n = omega arith in
    rw e (ap (◌∷◌ x) (take-split k n xs (omega (arith, h))))

-- The ids from `skip` on that a job with this limit still takes.
abbrev left : ℕ → List String → ℕ → List String
left limit ids skip = take (limit - skip) (drop skip ids)

left-full : (limit skip : ℕ) (ids : List String) → limit ≤ skip → left limit ids skip ≡ []
left-full limit skip ids h = let e : limit - skip ≡ 0 = omega arith in rw e refl

left-short :
    (limit skip size : ℕ) (ids : List String)
    → size ≤ limit - skip
    → length (page ids skip size) < size
    → left limit ids skip ≡ page ids skip size
left-short limit skip size ids within short =
    let len = length-take size (drop skip ids) in
    take_of_length-le (limit - skip) (drop skip ids) (omega arith)
    ∙ sym (take_of_length-le size (drop skip ids) (omega arith))

left-whole :
    (limit skip size : ℕ) (ids : List String)
    → size ≤ limit - skip
    → left limit ids skip ≡ page ids skip size ++ left limit ids (skip + size)
left-whole limit skip size ids within =
    let e : limit - skip - size ≡ limit - (skip + size) = omega arith in
    take-split (limit - skip) size (drop skip ids) within ∙ rw (e, drop-drop size skip ids) refl

empty-eq : {A : Type 0} (xs : List A) → is_empty xs ≡ true → xs ≡ []
empty-eq [] h = refl
empty-eq (x ∷ xs) h = absurd cc

module _ {S A : Type 0} (step : S → String → S × Outcome A) where
  replay-length : (ids : List String) (st : S) → length (replay step ids st).1 ≡ length ids
  replay-length [] st = refl
  replay-length (s ∷ ids) st = ap suc (replay-length ids (step st s).0)

  replay-append :
      (xs ys : List String) (st : S)
      → replay step (xs ++ ys) st ≡ (
        (replay step ys (replay step xs st).0).0,
        (replay step xs st).1 ++ (replay step ys (replay step xs st).0).1,
      )
  replay-append [] ys st = refl
  replay-append (s ∷ xs) ys st =
      ap (λ r. (r.0, (s, (step st s).1) ∷ r.1)) (replay-append xs ys (step st s).0)

  -- The store and the report after these ids.
  abbrev Ran : List String → S → SnapshotRun → S × SnapshotRun
  Ran ids st run = let r = replay step ids st in (r.0, tally r.1 run)

  Ran-append :
      (xs ys : List String) (st : S) (run : SnapshotRun)
      → Ran (xs ++ ys) st run ≡ Ran ys (Ran xs st run).0 (Ran xs st run).1
  Ran-append xs ys st run =
      ap (λ r. (r.0, tally r.1 run)) (replay-append xs ys st)
      ∙ ap (λ t. ((replay step ys (replay step xs st).0).0, t))
          (tally-append (replay step xs st).1 (replay step ys (replay step xs st).0).1 run)

  module _ (limit : ℕ) where
    run_page-Ran :
        (subjects : List String) (st : S) (run : SnapshotRun)
        → run.subjects_processed + length subjects ≤ limit
        → run_page step limit subjects st run ≡ Ran subjects st run
    unfolding run_page
    run_page-Ran [] st run h = refl
    run_page-Ran (s ∷ subjects) st run h =
        let room : leb limit run.subjects_processed ≡ false = ground (arith, h) in
        let counted = count-processed s (step st s).1 run in
        rw room (run_page-Ran subjects (step st s).0 (count s (step st s).1 run) (omega (arith, h)))

    run_pages-Ran :
        (fuel skip : ℕ) (ids : List String) (st : S) (run : SnapshotRun)
        → run.subjects_processed ≡ skip
        → limit < skip + fuel
        → run_pages step limit fuel skip (page ids) st run ≡ Ran (left limit ids skip) st run
    unfolding run_pages
    run_pages-Ran zero skip ids st run at enough = rw (left-full limit skip ids (omega arith)) refl
    run_pages-Ran (suc fuel) skip ids st run at enough =
        let size = min page_size (limit - run.subjects_processed) in
        let subjects = page ids skip size in
        let len = length-take size (drop skip ids) in
        elim (Bool-cases (leb limit run.subjects_processed)) [
          | inl full ↦ rw (full, left-full limit skip ids (ground arith)) refl
          | inr more ↦
              let under : run.subjects_processed < limit = ground arith in
              let page_done = run_page-Ran subjects st run (omega arith) in
              elim (Bool-cases (ltb (length subjects) size)) [
                | inl short ↦
                    let less : length subjects < size = ground arith in
                    let all_left = left-short limit skip size ids (omega arith) less in
                    elim (Bool-cases (is_empty subjects)) [
                      | inl nothing ↦ rw (more, nothing, all_left, empty-eq subjects nothing) refl
                      | inr some_left ↦ rw (more, some_left, short, all_left) page_done
                    ]
                | inr whole ↦
                    let filled : length subjects ≡ size = ground (arith, len) in
                    let here = Ran subjects st run in
                    let counted = tally-processed (replay step subjects st).1 run in
                    let entries = replay-length subjects st in
                    let rest =
                      run_pages-Ran fuel (skip + length subjects) ids here.0 here.1
                        (counted ∙ omega arith) (omega arith) in
                    let parts : left limit ids skip
                        ≡ subjects ++ left limit ids (skip + length subjects) =
                      left-whole limit skip size ids (omega arith)
                      ∙ ap (λ n. subjects ++ left limit ids (skip + n)) (sym filled) in
                    elim (Bool-cases (is_empty subjects)) [
                      | inl nothing ↦
                          absurd (let e = ap length (empty-eq subjects nothing) in omega arith)
                      | inr some_left ↦
                          rw (more, some_left, whole, page_done, parts)
                            (rest
                              ∙ sym (
                                  Ran-append subjects (left limit ids (skip + length subjects)) st
                                    run))
                    ]
              ]
        ]

-- The job takes one snapshot for each of the tenant's subjects, in their order and up to its limit,
-- each on the store that the one before leaves, and nothing else. Its report has the number of these
-- subjects, how many were created, how many skipped because they raised a validation error, how many
-- failed with another error, and the ids of the first 50 that failed.
pub run_job-report :
    {S A : Type 0} (step : S → String → S × Outcome A) (limit : ℕ) (ids : List String) (st : S)
    → run_job step limit (page ids) st
      ≡ ((replay step (take limit ids) st).0, report (replay step (take limit ids) st).1)
unfolding run_job
run_job-report step limit ids st =
    let e : limit - 0 ≡ limit = omega arith in
    run_pages-Ran step limit (suc limit) 0 ids st no_run refl (omega arith)
    ∙ rw (e, report-eq (replay step (take limit ids) st).1) refl
