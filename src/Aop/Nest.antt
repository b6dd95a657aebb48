-- ===== src/Aop/Nest.antt =====
-- The calls of a method within its around advices.
use tegg.Prelude.{
  ℕ, suc, ◌≡◌, inl, inr, refl, ap, sym, ◌∙◌, subst, List, [], ◌∷◌, ◌++◌, append_assoc, Option, none,
  some, Result, Bool, false,
}
use tegg.Aop.{Action, Middleware, functions, do_execute}
use tegg.Aop.Laws.{
  Entry, goes_on, stops, Around, leave_with, entered, run_around, ComposeLaws, Note, threw_of,
  stops_throwing, enters_around, calls_method, leaves_around, Parts, noting_around, noting_all,
  map_option, Within, Nested,
}
use tegg.Aop.Notes.{noted_method}

module _ {S E Args V : Type 0}
    (compose : List (Middleware (S × List Note) E Args V) → Args → Action (S × List Note) E V)
    (method : Args → Action S E V) (laws : ComposeLaws compose) where
  -- What a call notes, and how its notes are nested.
  abbrev pub Notes : (Bool → List Note → Type 0) → List Note → (S × List Note) × Result E V → Type 0
  Notes Shape log out = (nest : List Note) × (out.0.1 ≡ log ++ nest) × Shape (threw_of out.1) nest

  left-Notes :
      (a : Around S E Args V) (n : ℕ) (args : Args) (Inner : Bool → List Note → Type 0)
      (log : List Note) (out : (S × List Note) × Result E V)
      → Notes Inner (log ++ (enters_around n, false) ∷ []) out
      → Notes (Within (some a) n Inner) log (leave_with ((noting_around n a).leaves args) out)
  left-Notes a n args Inner log ((s, l), answer) (nest, e, i) =
      let left : Note = (leaves_around n, threw_of (a.leaves args answer s).1) in
      (
        (enters_around n, false) ∷ nest ++ left ∷ [],
        ap (λ t. t ++ left ∷ []) e
            ∙ append_assoc (log ++ (enters_around n, false) ∷ []) nest (left ∷ [])
            ∙ append_assoc log ((enters_around n, false) ∷ []) (nest ++ left ∷ []),
        inr (nest, threw_of answer, i, refl),
      )

  entered-Notes :
      (a : Around S E Args V) (n : ℕ) (args : Args) (Inner : Bool → List Note → Type 0)
      (log : List Note) (next : Action (S × List Note) E V) (r : S × Entry E V)
      → ((s : S) (l : List Note) → Notes Inner l (next (s, l)))
      → Notes (Within (some a) n Inner) log (
          entered
            ((noting_around n a).leaves args)
            next
            ((r.0, log ++ (enters_around n, stops_throwing r.1) ∷ []), r.1))
  entered-Notes a n args Inner log next (s, goes_on) h =
      left-Notes a n args Inner log (next (s, log ++ (enters_around n, false) ∷ []))
        (h s (log ++ (enters_around n, false) ∷ []))
  entered-Notes a n args Inner log next (s, stops answer) h =
      ((enters_around n, threw_of answer) ∷ [], refl, inl refl)

  around-Notes :
      (o : Option (Around S E Args V)) (n : ℕ) (f : Middleware (S × List Note) E Args V)
      (fs : List (Middleware (S × List Note) E Args V)) (Inner : Bool → List Note → Type 0)
      (args : Args)
      → ((s : S) (l : List Note) → Notes Inner l (compose (f ∷ fs) args (s, l)))
      → (s : S) (log : List Note)
      → Notes (Within o n Inner) log (
          compose
            (elim (map_option (λ a. run_around (noting_around n a)) o) [
              | none ↦ f ∷ fs
              | some around ↦ around ∷ f ∷ fs
            ])
            args
            (s, log))
  around-Notes none n f fs Inner args h s log = h s log
  around-Notes (some a) n f fs Inner args h s log =
      subst (Notes (Within (some a) n Inner) log)
        (sym (laws.compose_next (noting_around n a) f fs args (s, log)))
        (entered-Notes a n args Inner log (compose (f ∷ fs) args) (a.enters args s) h)

  filled :
      (n : ℕ) (o : Option (Around S E Args V)) (rest : List (Middleware (S × List Note) E Args V))
      (f : Middleware (S × List Note) E Args V) (fs : List (Middleware (S × List Note) E Args V))
      → rest ≡ f ∷ fs
      → (g : Middleware (S × List Note) E Args V) × (gs : List
          (Middleware (S × List Note) E Args V))
        × ((elim (map_option (λ a. run_around (noting_around n a)) o) [
          | none ↦ rest
          | some around ↦ around ∷ rest
        ])
            ≡ g ∷ gs)
  filled n none rest f fs e = (f, fs, e)
  filled n (some a) rest f fs e = (_, _, refl)

  functions-filled :
      (n : ℕ) (ps : List (Parts S E Args V))
      → (f : Middleware (S × List Note) E Args V) × (fs : List
          (Middleware (S × List Note) E Args V))
        × (functions compose (noted_method compose method) (noting_all n ps) ≡ f ∷ fs)
  unfolding functions
  functions-filled n [] = (_, _, refl)
  functions-filled n (p ∷ ps) =
      let (f, fs, e) = functions-filled (suc n) ps in filled n p.around_part _ f fs e

  pub do_execute-Notes :
      (n : ℕ) (ps : List (Parts S E Args V)) (args : Args) (s : S) (log : List Note)
      → Notes
          (Nested n ps)
          log
          (do_execute compose (noted_method compose method) (noting_all n ps) args (s, log))
  unfolding do_execute functions
  do_execute-Notes n [] args s log = (
    (calls_method, threw_of (method args s).1) ∷ [],
    ap (λ r. r.0.1) (laws.compose_last (noted_method compose method) args (s, log)),
    ap (λ r. (calls_method, threw_of r.1) ∷ [])
        (sym (laws.compose_last (noted_method compose method) args (s, log))),
  )
  do_execute-Notes n (p ∷ ps) args s log =
      let (f, fs, e) = functions-filled (suc n) ps in
      subst
        (λ t. Notes (Nested n (p ∷ ps)) log (
          compose
            (elim (map_option (λ a. run_around (noting_around n a)) p.around_part) [
              | none ↦ t
              | some around ↦ around ∷ t
            ])
            args (s, log)))
        (sym e)
        (around-Notes p.around_part n f fs (Nested (suc n) ps) args
          (λ t l.
            subst (λ u. Notes (Nested (suc n) ps) l (compose u args (t, l))) e
              (do_execute-Notes (suc n) ps args t l))
          s log)
