-- ===== src/Session/Counter.antt =====
-- The counter of a session of internal/server/jobsdispatcher/session.go while calls overlap.
use pacific_coast.Base.{
  ℕ, zero, suc, Bool, true, false, List, [], ◌∷◌, ◌++◌, nat_eq, ltb, ◌+◌, length, count,
  count-append, arith, Bool-cases, inl, inr, ◌≡◌, refl, sym, ap, ◌∙◌, delete, has, ℤ, pos, negsuc,
}
use pacific_coast.Session.State.{
  dispatch, Session, outbox_cap, append_event, dispatched_event, count_up, count_down,
}
use pacific_coast.Session.Calls.{
  Task, counting, sending, noting, undoing, uncounting, resume, late_by,
}
use pacific_coast.Session.Maps.{length-delete}

abbrev pub is_counting : Task → Bool
is_counting (counting d) = true
is_counting _ = false

abbrev pub is_uncounting : Task → Bool
is_uncounting uncounting = true
is_uncounting _ = false

-- an integer and a natural number
abbrev pub raised : ℕ → ℤ → ℤ
raised zero c = c
raised (suc n) c = raised n (count_up c)

-- The counter, and one for each call that has still to count its row and for each undo that came too
-- late, is the number of rows in the map, and one for each call that has still to uncount its row.
abbrev pub IsCounted : List Task → ℕ → Session → Type 0
IsCounted tasks late s =
    raised (count is_counting tasks + late) s.inflight_counter
    ≡ pos (length s.inflight + count is_uncounting tasks)

count_up-raised : (n : ℕ) (c : ℤ) → raised (suc n) c ≡ count_up (raised n c)
count_up-raised zero c = refl
count_up-raised (suc n) c = count_up-raised n (count_up c)

up-down : (c : ℤ) → count_up (count_down c) ≡ c
up-down (pos zero) = refl
up-down (pos (suc n)) = refl
up-down (negsuc n) = refl

down-up : (c : ℤ) → count_down (count_up c) ≡ c
down-up (pos n) = refl
down-up (negsuc zero) = refl
down-up (negsuc (suc n)) = refl

count_down-raised : (n : ℕ) (c : ℤ) → raised n (count_down c) ≡ count_down (raised n c)
count_down-raised zero c = refl
count_down-raised (suc n) c =
    ap (raised n) (up-down c) ∙ sym (ap count_down (count_up-raised n c) ∙ down-up (raised n c))

-- one more on both sides, a count, and an uncount
pub one_more : (n m : ℕ) (c : ℤ) → raised n c ≡ pos m → raised (n + 1) c ≡ pos (m + 1)
one_more n m c h =
    let e : n + 1 ≡ suc n = omega arith in
    let f : suc m ≡ m + 1 = omega arith in
    ap (λ k. raised k c) e ∙ count_up-raised n c ∙ ap count_up h ∙ ap pos f

fewer : (n m : ℕ) (c : ℤ) → raised n c ≡ pos (m + 1) → raised n (count_down c) ≡ pos m
fewer n m c h =
    let f : m + 1 ≡ suc m = omega arith in count_down-raised n c ∙ ap count_down (h ∙ ap pos f)

pub same : (n n2 m m2 : ℕ) (c : ℤ) → raised n c ≡ pos m → n ≡ n2 → m ≡ m2 → raised n2 c ≡ pos m2
same n n2 m m2 c h e f = ap (λ k. raised k c) (sym e) ∙ h ∙ ap pos f

tally :
    (p : Task → Bool) (before more after : List Task)
    → count p (before ++ (more ++ after)) ≡ count p before + (count p more + count p after)
tally p before more after =
    count-append p before (more ++ after) ∙ ap (λ k. count p before + k) (count-append p more after)

-- the tasks of one call are replaced by others that count as much
module _ (before : List Task) (t : Task) (after : List Task) (late : ℕ) (s : Session)
    (h : IsCounted (before ++ t ∷ after) late s) where
  replaced :
      (more : List Task) (later : ℕ) (s2 : Session)
      → s2.inflight_counter ≡ s.inflight_counter
      → count is_counting (t ∷ []) + late ≡ count is_counting more + later
      → length s.inflight + count is_uncounting (t ∷ [])
        ≡ length s2.inflight + count is_uncounting more
      → IsCounted (before ++ (more ++ after)) later s2
  replaced more later s2 c e f =
      ap (raised (count is_counting (before ++ (more ++ after)) + later)) c
      ∙ same (count is_counting (before ++ t ∷ after) + late)
          (count is_counting (before ++ (more ++ after)) + later)
          (length s.inflight + count is_uncounting (before ++ t ∷ after))
          (length s2.inflight + count is_uncounting (before ++ (more ++ after))) s.inflight_counter
          h
          (omega (
            arith,
            e,
            tally is_counting before (t ∷ []) after,
            tally is_counting before more after,
          ))
          (omega (
            arith,
            f,
            tally is_uncounting before (t ∷ []) after,
            tally is_uncounting before more after,
          ))

undo-IsCounted :
    (before : List Task) (id : ℕ) (after : List Task) (late : ℕ) (s : Session)
    → IsCounted (before ++ undoing id ∷ after) late s
    → IsCounted
        (before ++ uncounting ∷ after)
        (late + late_by (undoing id) s)
        (record s { inflight = delete s.inflight id })
undo-IsCounted before id after late s h = elim (Bool-cases (has s.inflight id)) [
  | inl there ↦
      replaced before (undoing id) after late s h (uncounting ∷ []) (late + late_by (undoing id) s)
        (record s { inflight = delete s.inflight id }) refl (ground (arith, there))
        (ground (arith, there, length-delete s.inflight id))
  | inr gone ↦
      let n = count is_counting (before ++ undoing id ∷ after) + late in
      let m = length s.inflight + count is_uncounting (before ++ undoing id ∷ after) in
      same (n + 1)
        (count is_counting (before ++ uncounting ∷ after) + (late + late_by (undoing id) s)) (m + 1)
        (length (delete s.inflight id) + count is_uncounting (before ++ uncounting ∷ after))
        s.inflight_counter (one_more n m s.inflight_counter h)
        (ground (
          arith,
          gone,
          tally is_counting before (undoing id ∷ []) after,
          tally is_counting before (uncounting ∷ []) after,
        ))
        (ground (
          arith,
          gone,
          length-delete s.inflight id,
          tally is_uncounting before (undoing id ∷ []) after,
          tally is_uncounting before (uncounting ∷ []) after,
        ))
]

pub going-IsCounted :
    (now : ℕ) (before : List Task) (t : Task) (after : List Task) (late : ℕ) (s : Session)
    → IsCounted (before ++ t ∷ after) late s
    → let (s2, rest) = resume now t s in
      IsCounted (before ++ (rest ++ after)) (late + late_by t s) s2
unfolding resume append_event
going-IsCounted now before (counting d) after late s h =
    let n = count is_counting (before ++ sending d false ∷ after) + (late + 0) in
    same (count is_counting (before ++ counting d ∷ after) + late) (suc n)
      (length s.inflight + count is_uncounting (before ++ counting d ∷ after))
      (length s.inflight + count is_uncounting (before ++ sending d false ∷ after))
      s.inflight_counter h
      (omega (
        arith,
        tally is_counting before (counting d ∷ []) after,
        tally is_counting before (sending d false ∷ []) after,
      ))
      (omega (
        arith,
        tally is_uncounting before (counting d ∷ []) after,
        tally is_uncounting before (sending d false ∷ []) after,
      ))
going-IsCounted now before (sending d dup) after late s h =
    let kept = replaced before (sending d dup) after late s h in
    elim (Bool-cases (ltb (length s.outbox) (outbox_cap s))) [
      | inl room ↦ rw room (
          kept (noting d ∷ []) (late + 0) (record s { outbox = s.outbox ++ dispatch d ∷ [] }) refl
            (omega arith) (omega arith))
      | inr full ↦ elim (Bool-cases dup) [
        | inl old ↦ rw (full, old) (kept [] (late + 0) s refl (omega arith) (omega arith))
        | inr new ↦
            rw (full, new)
              (kept (undoing d.job_id ∷ []) (late + 0) s refl (omega arith) (omega arith))
      ]
    ]
going-IsCounted now before (noting d) after late s h =
    replaced before (noting d) after late s h [] (late + 0)
      (append_event (dispatched_event d now) s) refl (omega arith) (omega arith)
going-IsCounted now before (undoing id) after late s h = undo-IsCounted before id after late s h
going-IsCounted now before uncounting after late s h =
    let n = count is_counting (before ++ after) + (late + 0) in
    let m = length s.inflight + count is_uncounting (before ++ after) in
    fewer n m s.inflight_counter (
      same (count is_counting (before ++ uncounting ∷ after) + late) n
        (length s.inflight + count is_uncounting (before ++ uncounting ∷ after)) (m + 1)
        s.inflight_counter h
        (omega (
          arith,
          tally is_counting before (uncounting ∷ []) after,
          tally is_counting before [] after,
        ))
        (omega (
          arith,
          tally is_uncounting before (uncounting ∷ []) after,
          tally is_uncounting before [] after,
        )))
