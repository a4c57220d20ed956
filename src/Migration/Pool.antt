-- ===== src/Migration/Pool.antt =====
-- The loop over the pool's queue: what it leaves and what it sends.
use blbchain.Base.{
  String, ℕ, ◌+◌, ◌≡◌, refl, sym, ap, ap₂, ◌∙◌, inl, inr, Bool, not, some, List, [], ◌∷◌, ◌++◌,
  append_assoc, append-nil, length, length-append, get_elem?, set, take, filterb, Bool-cases, arith,
}
use blbchain.Core.Transaction.{Transaction}
use blbchain.Migration.{fetch_loop, fetch_txs, goes_with}

get_elem?-append :
    {A : Type 0} (xs : List A) (x : A) (ys : List A)
    → get_elem? (xs ++ (x ∷ ys)) (length xs) ≡ some x
get_elem?-append [] x ys = refl
get_elem?-append (w ∷ xs) x ys = get_elem?-append xs x ys

take-append : {A : Type 0} (xs ys : List A) → take (length xs) (xs ++ ys) ≡ xs
take-append [] ys = refl
take-append (x ∷ xs) ys = ap (◌∷◌ x) (take-append xs ys)

set-append :
    {A : Type 0} (xs : List A) (x y : A) (ys : List A)
    → set (xs ++ (x ∷ ys)) (length xs) y ≡ xs ++ (y ∷ ys)
set-append [] x y ys = refl
set-append (w ∷ xs) x y ys = ap (◌∷◌ w) (set-append xs x y ys)

-- What stays is written at the first place that is free, which may be its own.
set-free :
    {A : Type 0} (kept gap todo : List A) (x : A)
    → (gap' : List A) × (set (kept ++ (gap ++ (x ∷ todo))) (length kept) x
        ≡ (kept ++ x ∷ []) ++ (gap' ++ todo))
      × (length gap' ≡ length gap)
set-free kept [] todo x =
    ([], set-append kept x x todo ∙ sym (append_assoc kept (x ∷ []) todo), refl)
set-free kept (g ∷ gs) todo x = (
  gs ++ x ∷ [],
  set-append kept g x (gs ++ (x ∷ todo))
      ∙ ap (λ l. kept ++ (x ∷ l)) (sym (append_assoc gs (x ∷ []) todo))
      ∙ sym (append_assoc kept (x ∷ []) ((gs ++ x ∷ []) ++ todo)),
  omega (arith, length-append gs (x ∷ [])),
)

get_elem?-gap :
    {A : Type 0} (kept gap todo : List A) (x : A)
    → get_elem? (kept ++ (gap ++ (x ∷ todo))) (length kept + length gap) ≡ some x
get_elem?-gap kept gap todo x =
    ap₂ get_elem? (sym (append_assoc kept gap (x ∷ todo))) (sym (length-append kept gap))
    ∙ get_elem?-append (kept ++ gap) x todo

module _ (leaves : Transaction → Bool) where
  abbrev pub stays : Transaction → Bool
  stays tx = not (leaves tx)

  -- The queue is what stays so far, places that are free, and what is to come.
  fetch_loop_lem :
      (kept gap todo sent : List Transaction) (first second : ℕ) (queue : List Transaction)
      → first ≡ length kept
      → second ≡ length kept + length gap
      → queue ≡ kept ++ (gap ++ todo)
      → fetch_loop leaves (length todo) first second queue sent
        ≡ (kept ++ filterb stays todo, sent ++ filterb leaves todo)
  unfolding fetch_loop
  fetch_loop_lem kept gap [] sent first second queue ef es eq =
      rw (eq, ef, take-append kept (gap ++ []), append-nil kept, append-nil sent) refl
  fetch_loop_lem kept gap (tx ∷ todo) sent first second queue ef es eq =
      let found : get_elem? queue second ≡ some tx =
        ap₂ get_elem? eq es ∙ get_elem?-gap kept gap todo tx in
      let (gap', eset, elen) = set-free kept gap todo tx in
      elim (Bool-cases (leaves tx)) [
        | inl t ↦
            rw (found, t, fetch_loop)
              (fetch_loop_lem kept (gap ++ tx ∷ []) todo (sent ++ tx ∷ []) first (second + 1) queue
                  ef (omega (arith, es, length-append gap (tx ∷ [])))
                  (eq ∙ ap (λ l. kept ++ l) (sym (append_assoc gap (tx ∷ []) todo)))
                ∙ ap (λ l. (kept ++ filterb stays todo, l))
                    (append_assoc sent (tx ∷ []) (filterb leaves todo)))
        | inr f ↦
            rw (found, f, fetch_loop)
              (fetch_loop_lem (kept ++ tx ∷ []) gap' todo sent (first + 1) (second + 1)
                  (set queue first tx) (omega (arith, ef, length-append kept (tx ∷ [])))
                  (omega (arith, es, elen, length-append kept (tx ∷ [])))
                  (ap₂ (λ q i. set q i tx) eq ef ∙ eset)
                ∙ ap (λ l. (l, sent ++ filterb leaves todo))
                    (append_assoc kept (tx ∷ []) (filterb stays todo)))
      ]

-- The loop that moves what stays to the front leaves in the queue exactly the transactions that do not
-- go with the addresses, and sends exactly those that do, both in the queue's order.
pub fetch_txs-filterb :
    (addrs : List String) (queue : List Transaction)
    → fetch_txs addrs queue
      ≡ (filterb (stays (goes_with addrs)) queue, filterb (goes_with addrs) queue)
unfolding fetch_txs
fetch_txs-filterb addrs queue =
    fetch_loop_lem (goes_with addrs) [] [] queue [] 0 0 queue refl refl refl
