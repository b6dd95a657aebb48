-- ===== src/Agent/Stream/Window.antt =====
-- The events between two numbers, in a list that is numbered from some number on.
use tegg.Prelude.{
  ℕ, zero, suc, ◌+◌, ◌≤◌, ◌<◌, ◌≡◌, refl, ◌∙◌, false, List, [], ◌∷◌, ◌++◌, append-nil, some, ltb,
  leb, length, element, ◌&&◌, filter, filter-append, inl, inr, Bool-cases, arith,
}
use tegg.Agent.Stream.{StreamEvent}

module _ {J : Type 0} where
  abbrev pub Numbered : ℕ → List (StreamEvent J) → Type 0
  Numbered n [] = Unit
  Numbered n (e ∷ es) = (e.seq ≡ suc n) × Numbered (suc n) es

  abbrev pub window : ℕ → ℕ → List (StreamEvent J) → List (StreamEvent J)
  window low high es = filter (λ e. ltb low e.seq && leb e.seq high) es

  -- The events that a client with the last number `low` has not seen.
  abbrev pub above : ℕ → List (StreamEvent J) → List (StreamEvent J)
  above low es = filter (λ e. ltb low e.seq) es

  pub Numbered-append :
      (n : ℕ) (es : List (StreamEvent J)) (e : StreamEvent J)
      → Numbered n es
      → e.seq ≡ suc (n + length es)
      → Numbered n (es ++ e ∷ [])
  Numbered-append n [] e k h = (omega (arith, h), tt)
  Numbered-append n (d ∷ es) e k h = (k.0, Numbered-append (suc n) es e k.1 (omega (arith, h)))

  pub Numbered-element :
      (n i : ℕ) (es : List (StreamEvent J)) (e : StreamEvent J)
      → Numbered n es
      → element i es ≡ some e
      → (e.seq ≡ suc (n + i)) × (i < length es)
  Numbered-element n i [] e k h = cc
  Numbered-element n zero (d ∷ es) e k h = ground arith
  Numbered-element n (suc i) (d ∷ es) e k h =
      let (seq, below) = Numbered-element (suc n) i es e k.1 h in
      (omega (arith, seq), omega (arith, below))

  window_below :
      (n low high : ℕ) (es : List (StreamEvent J))
      → Numbered n es
      → high ≤ n
      → window low high es ≡ []
  window_below n low high [] k h = refl
  window_below n low high (e ∷ es) k h =
      ground (arith, k.0, window_below (suc n) low high es k.1 (omega arith))

  -- The window grows by one event at a time.
  pub window_next :
      (n i low high : ℕ) (es : List (StreamEvent J)) (e : StreamEvent J)
      → Numbered n es
      → element i es ≡ some e
      → high ≡ n + i
      → low ≤ high
      → window low (suc high) es ≡ window low high es ++ e ∷ []
  window_next n i low high [] e k h b l = cc
  window_next n zero low high (d ∷ es) e k h b l = ground (
    arith,
    k.0,
    window_below (suc n) low (suc high) es k.1 (omega arith),
    window_below (suc n) low high es k.1 (omega arith),
  )
  window_next n (suc i) low high (d ∷ es) e k h b l =
      ground (arith, k.0, window_next (suc n) i low high es e k.1 h (omega arith) l)

  pub window_push :
      (low high : ℕ) (es : List (StreamEvent J)) (e : StreamEvent J)
      → (ltb low e.seq && leb e.seq high) ≡ false
      → window low high (es ++ e ∷ []) ≡ window low high es
  window_push low high es e h =
      filter-append (λ d. ltb low d.seq && leb d.seq high) es (e ∷ [])
      ∙ ground (arith, append-nil (window low high es))

  pub window_start : (low : ℕ) (es : List (StreamEvent J)) → window low low es ≡ []
  window_start low [] = refl
  window_start low (e ∷ es) = ground (arith, window_start low es)

  pub above-window :
      (n low high : ℕ) (es : List (StreamEvent J))
      → low ≤ high
      → Numbered n es
      → above low es ≡ window low high es ++ above high es
  above-window n low high [] l k = refl
  above-window n low high (e ∷ es) l k = elim (Bool-cases (leb (suc n) high)) [
    | inl b ↦ ground (arith, k.0, above-window (suc n) low high es l k.1)
    | inr b ↦ ground (
      arith,
      k.0,
      above-window (suc n) low high es l k.1,
      window_below (suc n) low high es k.1 (ground arith),
    )
  ]

  pub above_end :
      (n low : ℕ) (es : List (StreamEvent J))
      → Numbered n es
      → n + length es ≤ low
      → above low es ≡ []
  above_end n low [] k h = refl
  above_end n low (e ∷ es) k h = ground (arith, k.0, above_end (suc n) low es k.1 (omega arith))
