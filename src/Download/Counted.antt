-- ===== src/Download/Counted.antt =====
-- The counter of internal/download/progress.go and the files that it counts.
use inference_budget_control.Prelude.{
  ℕ, ◌+◌, ◌-◌, ◌≤◌, String, List, [], ◌∷◌, ◌++◌, ◌≡◌, refl, sym, ◌∙◌, ap, arith, false, Option,
  none, some, length, length-append, ltb, leb, Bool-cases, inl, inr,
}
use inference_budget_control.Prelude.Int.{
  ℤ, ◌+ℤ◌, ◌-ℤ◌, ltb_ℤ, int64, int64_same, int64-≈, int64-pos, int_laws, parts_of_eq,
}
use inference_budget_control.Prelude.Dict.{Dict, lookup, insert}
use inference_budget_control.Prelude.Bytes.{drop}
use inference_budget_control.Prelude.Sums.{sum_by, weight_of, sum_by-insert}
use inference_budget_control.Manager.{pending, downloading, complete, failed}
use inference_budget_control.Download.Progress.{
  FileProgress, ProgressTracker, file_or_new, set_file_total, slide, record_speed_sample,
  update_file_progress, complete_found, complete_file, fail_found, fail_file, start, reset,
}

-- What is called of a tracker.
pub data Call : Type 0 where
  total_of : String → ℤ → Call
  note_of : ℕ → String → ℤ → Call
  complete_of : String → Call
  fail_of : String → Call
  start_at : ℕ → Call
  clear : Call

abbrev completed_of : FileProgress → ℤ
completed_of f = f.completed

abbrev pub counted : Dict FileProgress → ℤ
counted files = sum_by (λ (f : FileProgress). f.completed) files

-- The counter holds the sum of the files' bytes, and the window is within its size.
abbrev pub IsCounted : ProgressTracker → Type 0
IsCounted p = (p.completed_bytes ≡ int64 (counted p.files)) × (length p.speeds ≤ 10)

-- A file whose bytes change by what is added to the counter.
counted-insert :
    (path : String) (f : FileProgress) (files : Dict FileProgress) (c old : ℤ)
    → c ≡ int64 (counted files)
    → weight_of completed_of (lookup path files) ≡ old
    → int64 (c +ℤ int64 (f.completed -ℤ old)) ≡ int64 (counted (insert path f files))
counted-insert path f files c old e w =
    let delta = f.completed -ℤ old in
    let (k, k', h) = int64-≈ delta in
    let (j, j', g) = int64-≈ (counted files) in
    let sum = parts_of_eq (sum_by-insert completed_of path f files) in
    int64_same (c +ℤ int64 delta) (counted (insert path f files))
      (k + j, k' + j', omega (int_laws, h, g, parts_of_eq e, parts_of_eq w, sum))

-- A file whose bytes stay.
counted_same :
    (path : String) (f : FileProgress) (files : Dict FileProgress)
    → weight_of completed_of (lookup path files) ≡ f.completed
    → counted (insert path f files) ≡ counted files
counted_same path f files e =
    omega (int_laws, parts_of_eq e, parts_of_eq (sum_by-insert completed_of path f files))

weight_of-new : (o : Option FileProgress) → weight_of completed_of o ≡ (file_or_new o).completed
weight_of-new none = refl
weight_of-new (some f) = refl

slide-length :
    (speeds : List ℤ) (speed : ℤ) → length speeds ≤ 10 → length (slide (speeds ++ speed ∷ [])) ≤ 10
slide-length speeds speed h =
    let n = length-append speeds (speed ∷ []) in
    elim (Bool-cases (ltb 10 (length (speeds ++ speed ∷ [])))) [
      | inr e ↦ rw e (at_most (length (speeds ++ speed ∷ [])) e)
      | inl e ↦ rw e (dropped (speeds ++ speed ∷ []) (omega (arith, n, h)))
    ]
  where
    at_most : (n : ℕ) → ltb 10 n ≡ false → n ≤ 10
    at_most n e = ground arith

    dropped : (xs : List ℤ) → length xs ≤ 11 → length (drop 1 xs) ≤ 10
    dropped [] h = omega arith
    dropped (x ∷ xs) h = omega (arith, h)

module _ (speed_of : ℤ → ℕ → ℤ) where
  abbrev pub call : Call → ProgressTracker → ProgressTracker
  call (total_of path total) p = set_file_total path total p
  call (note_of now path completed) p = update_file_progress speed_of now path completed p
  call (complete_of path) p = complete_file path p
  call (fail_of path) p = fail_file path p
  call (start_at now) p = start now p
  call clear p = reset p

  abbrev pub calls : List Call → ProgressTracker → ProgressTracker
  calls [] p = p
  calls (c ∷ cs) p = calls cs (call c p)

  record_speed_sample-IsCounted :
      (now : ℕ) (p : ProgressTracker) → IsCounted p → IsCounted (record_speed_sample speed_of now p)
  unfolding record_speed_sample
  record_speed_sample-IsCounted now p (sum, window) =
      elim (Bool-cases (ltb (now - p.last_update) 500000000)) [
        | inl e ↦ rw e (sum, window)
        | inr e ↦ rw e (elim (Bool-cases (leb now p.start_time)) [
          | inl e₁ ↦ rw e₁ (sum, window)
          | inr e₁ ↦ rw e₁ (sum, slide-length p.speeds _ window)
        ])
      ]

  update_file_progress-IsCounted :
      (now : ℕ) (path : String) (completed : ℤ) (p : ProgressTracker)
      → IsCounted p
      → IsCounted (update_file_progress speed_of now path completed p)
  unfolding update_file_progress
  update_file_progress-IsCounted now path completed p (sum, window) =
      record_speed_sample-IsCounted now _ (
        counted-insert path
            (record {
              total = (file_or_new (lookup path p.files)).total;
              completed = completed;
              phase = downloading;
            })
            p.files p.completed_bytes (file_or_new (lookup path p.files)).completed sum
            (weight_of-new (lookup path p.files)),
        window,
      )

  complete_found-IsCounted :
      (path : String) (o : Option FileProgress) (p : ProgressTracker)
      → lookup path p.files ≡ o
      → IsCounted p
      → IsCounted (complete_found path o p)
  complete_found-IsCounted path none p found h = h
  complete_found-IsCounted path (some f) p found (sum, window) =
      elim (Bool-cases (ltb_ℤ f.completed f.total)) [
        | inl e ↦ rw e (
          counted-insert path (record { total = f.total; completed = f.total; phase = complete })
              p.files p.completed_bytes f.completed sum (ap (weight_of completed_of) found),
          window,
        )
        | inr e ↦ rw e (
          sum
              ∙ ap int64 (
                  sym (
                    counted_same path (record f { phase = complete }) p.files
                      (ap (weight_of completed_of) found))),
          window,
        )
      ]

  fail_found-IsCounted :
      (path : String) (o : Option FileProgress) (p : ProgressTracker)
      → lookup path p.files ≡ o
      → IsCounted p
      → IsCounted (fail_found path o p)
  fail_found-IsCounted path none p found h = h
  fail_found-IsCounted path (some f) p found (sum, window) = (
    sum
        ∙ ap int64 (
            sym (
              counted_same path (record f { phase = failed }) p.files
                (ap (weight_of completed_of) found))),
    window,
  )

  call-IsCounted : (c : Call) (p : ProgressTracker) → IsCounted p → IsCounted (call c p)
  unfolding set_file_total complete_file fail_file start reset sum_by
  call-IsCounted (total_of path total) p (sum, window) =
      let f = file_or_new (lookup path p.files) in
      (
        sum
            ∙ ap int64 (
                sym (
                  counted_same path
                    (record { total = total; completed = f.completed; phase = pending }) p.files
                    (weight_of-new (lookup path p.files)))),
        window,
      )
  call-IsCounted (note_of now path completed) p h =
      update_file_progress-IsCounted now path completed p h
  call-IsCounted (complete_of path) p h =
      complete_found-IsCounted path (lookup path p.files) p refl h
  call-IsCounted (fail_of path) p h = fail_found-IsCounted path (lookup path p.files) p refl h
  call-IsCounted (start_at now) p h = h
  call-IsCounted clear p h = (sym (int64-pos 0 (omega arith)), omega arith)

  -- Where the counter of completed bytes is the sum of the files' completed bytes as an int64, and
  -- the window holds at most ten speeds, it stays so through any history of SetFileTotal,
  -- UpdateFileProgress, CompleteFile, FailFile, Start and Reset, also where sums overflow.
  pub calls-IsCounted :
      (cs : List Call) (p : ProgressTracker) → IsCounted p → IsCounted (calls cs p)
  calls-IsCounted [] p h = h
  calls-IsCounted (c ∷ cs) p h = calls-IsCounted cs (call c p) (call-IsCounted c p h)
