-- ===== src/Telemetry/Queue/Recovery.antt =====
-- queue.py: `recover_processing` and its loop.
use cislunar_ground_platform.Base.{
  ℕ, zero, suc, ◌+◌, none, some, List, [], ◌∷◌, ◌++◌, Bytes, length, length-append, ◌≡◌, refl, sym,
  ap, ◌∙◌, arith, inl, inr, Option-cases,
}
use cislunar_ground_platform.Telemetry.Queue.Lists.{Redis, rpop, recover_loop, recover_processing}

pub rpop-none : (xs : List Bytes) → rpop xs ≡ none → xs ≡ []
unfolding rpop
rpop-none [] h = refl
rpop-none (x ∷ xs) h = ground arith

-- What the right end is, and what is left.
pub rpop-some :
    (xs : List Bytes) (y : Bytes) (ys : List Bytes) → rpop xs ≡ some (y, ys) → xs ≡ ys ++ (y ∷ [])
unfolding rpop
rpop-some [] y ys h = cc
rpop-some (x ∷ xs) y ys h = elim (Option-cases (rpop xs)) [
  | inl e ↦ ground (arith, rpop-none xs e)
  | inr ((z, zs), e) ↦ ground (arith, rpop-some xs z zs e)
]

-- Without the last entry a list is one shorter.
shorter :
    (n : ℕ) (xs ys : List Bytes) (y : Bytes)
    → length xs ≡ suc n
    → xs ≡ ys ++ (y ∷ [])
    → length ys ≡ n
shorter n xs ys y h e =
    let total : length xs ≡ length ys + 1 = ap length e ∙ length-append ys (y ∷ []) in
    omega (arith, total, h)

append_shift : (xs ys : List Bytes) (x : Bytes) → xs ++ (x ∷ ys) ≡ (xs ++ (x ∷ [])) ++ ys
append_shift [] ys x = refl
append_shift (z ∷ xs) ys x = cc (append_shift xs ys x)

same_result :
    (m n : ℕ) (xs ys : List Bytes)
    → m ≡ n
    → xs ≡ ys
    → ◌≡◌ {A = ℕ × List Bytes × List Bytes} (m, [], xs) (n, [], ys)
same_result m n xs ys h e = cc (h, e)

recover_loop_all :
    (n recovered : ℕ) (processing pending : List Bytes)
    → length processing ≡ n
    → recover_loop n recovered processing pending ≡ (recovered + n, [], processing ++ pending)
unfolding recover_loop
recover_loop_all zero recovered [] pending h = ground arith
recover_loop_all zero recovered (x ∷ xs) pending h = absurd (omega arith)
recover_loop_all (suc n) recovered processing pending h = elim (Option-cases (rpop processing)) [
  | inl e ↦ absurd (omega (arith, h, ap length (rpop-none processing e)))
  | inr ((y, ys), e) ↦
      let split = rpop-some processing y ys e in
      rw (recover_loop, e)
        (recover_loop_all n (recovered + 1) ys (y ∷ pending) (shorter n processing ys y h split)
          ∙ same_result (recovered + 1 + n) (recovered + suc n) (ys ++ (y ∷ pending))
              (processing ++ pending) (omega arith)
              (append_shift ys pending y ∙ ap (λ xs. xs ++ pending) (sym split)))
]

-- Recovery takes every entry of the processing list, leaves none there, counts them, and puts them
-- in their order behind all pending ones: the right end, which is claimed next, is the pending list's.
pub recover_processing-all :
    (s : Redis)
    → recover_processing s
      ≡ (length s.processing, record s { processing = []; pending = s.processing ++ s.pending })
unfolding recover_processing
recover_processing-all s =
    ap (λ (q : ℕ × List Bytes × List Bytes). (q.0, record s { processing = q.1; pending = q.2 }))
      (recover_loop_all (length s.processing) 0 s.processing s.pending refl
        ∙ same_result (0 + length s.processing) (length s.processing) _ _ (omega arith) refl)
