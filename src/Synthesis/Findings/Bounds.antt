-- ===== src/Synthesis/Findings/Bounds.antt =====
-- How many key findings there are, and where they come from.
use source_rudder.Prelude.{
  ◌≤◌, ◌≡◌, refl, ◌⊎◌, inl, inr, List, [], ◌∷◌, ◌++◌, arith, Bool-cases, length, length-append, All,
  All-append, Text, is_empty,
}
use source_rudder.Types.{SearchResultItem}
use source_rudder.Synthesis.{Runtime, preview}
use source_rudder.Synthesis.Findings.{fallback_finding, findings_loop, extract_key_findings}

-- The text is the preview of the snippet of one of the results.
abbrev pub Quoted : List SearchResultItem → Text → Type 0
Quoted [] t = ⊥
Quoted (r ∷ rs) t = (t ≡ preview 100 r.snippet) ⊎ Quoted rs t

module _ (rt : Runtime) where
  findings_loop_le :
      (qws : List Text) (rs : List SearchResultItem) (seen findings : List Text)
      → length findings ≤ 4
      → length (findings_loop rt qws rs seen findings) ≤ 5
  unfolding findings_loop
  findings_loop_le qws [] seen findings h = omega arith
  findings_loop_le qws (r ∷ rs) seen findings h =
      let phrase = preview 100 r.snippet in
      ground (
        arith,
        findings_loop_le qws rs seen findings h,
        findings_loop_le qws rs (phrase ∷ seen) (findings ++ phrase ∷ []),
        length-append findings (phrase ∷ []),
      )

  findings_loop-Quoted :
      (all : List SearchResultItem) (qws : List Text) (rs : List SearchResultItem)
      (seen findings : List Text)
      → All (λ r. Quoted all (preview 100 r.snippet)) rs
      → All (Quoted all) findings
      → All (Quoted all) (findings_loop rt qws rs seen findings)
  unfolding findings_loop
  findings_loop-Quoted all qws [] seen findings q h = h
  findings_loop-Quoted all qws (r ∷ rs) seen findings q h =
      let phrase = preview 100 r.snippet in
      let added = All-append (Quoted all) findings (phrase ∷ []) h (q.0, tt) in
      ground (
        arith,
        findings_loop-Quoted all qws rs seen findings q.1 h,
        findings_loop-Quoted all qws rs (phrase ∷ seen) (findings ++ phrase ∷ []) q.1 added,
        added,
      )

  later-Quoted :
      (r : SearchResultItem) (rs xs : List SearchResultItem)
      → All (λ x. Quoted rs (preview 100 x.snippet)) xs
      → All (λ x. Quoted (r ∷ rs) (preview 100 x.snippet)) xs
  later-Quoted r rs [] h = tt
  later-Quoted r rs (x ∷ xs) h = (inr h.0, later-Quoted r rs xs h.1)

  previews-Quoted : (rs : List SearchResultItem) → All (λ r. Quoted rs (preview 100 r.snippet)) rs
  previews-Quoted [] = tt
  previews-Quoted (r ∷ rs) = (inl refl, later-Quoted r rs rs (previews-Quoted rs))

  fallback_finding_lem :
      (rs : List SearchResultItem) (findings : List Text)
      → length findings ≤ 5
      → All (Quoted rs) findings
      → (length (fallback_finding rs findings) ≤ 5) × All (Quoted rs) (fallback_finding rs findings)
  unfolding fallback_finding
  fallback_finding_lem [] fs l q = (l, q)
  fallback_finding_lem (r ∷ rs) (f ∷ fs) l q = (l, q)
  fallback_finding_lem (r ∷ rs) [] l q = elim (Bool-cases (is_empty r.snippet)) [
    | inl e ↦ rw e (omega arith, tt)
    | inr e ↦ rw e (omega arith, (inl refl, tt))
  ]

  -- There are at most five key findings, and each is the preview of the snippet of one of the
  -- results.
  pub extract_key_findings_lem :
      (query : Text) (rs : List SearchResultItem)
      → (length (extract_key_findings rt query rs) ≤ 5)
        × All (Quoted rs) (extract_key_findings rt query rs)
  unfolding extract_key_findings
  extract_key_findings_lem query rs =
      let qws = rt.fields (rt.to_lower query) in
      fallback_finding_lem rs (findings_loop rt qws rs [] [])
        (findings_loop_le qws rs [] [] (omega arith))
        (findings_loop-Quoted rs qws rs [] [] (previews-Quoted rs) tt)
