-- ===== src/Search/Manager/All.antt =====
-- What SearchAll gathers from the connectors.
use source_rudder.Prelude.{
  ◌≡◌, refl, sym, ap, ◌∙◌, none, some, List, [], ◌∷◌, ◌++◌, map, Slice, elems, append_one, Text,
  bytes,
}
use mathlib.Core.List.{append_assoc, append-nil}
use source_rudder.Types.{SearchRequest, SearchResultItem, SearchResponse, Result, ok, err}
use source_rudder.Normalization.{UrlLibrary, seen_before}
use source_rudder.Search.Manager.{Connector, Gathered, append_all, gather, gather_all, search_all}
use source_rudder.Search.Manager.Dedupe.{canonical_of, Distinct, deduplicate_results_lem}

-- What the connectors answer, asked one after the other.
abbrev pub replies :
    {S : Type 0}
    → List (Text × Connector S)
    → SearchRequest
    → S
    → List (Text × Result SearchResponse)
replies [] req s = []
replies ((name, conn) ∷ m) req s =
    (name, (conn.search s req).1) ∷ replies m req (conn.search s req).0

-- The results of the connectors that answered.
abbrev pub all_found : List (Text × Result SearchResponse) → List SearchResultItem
all_found [] = []
all_found ((name, err e) ∷ rs) = all_found rs
all_found ((name, ok result) ∷ rs) = elems result.results ++ all_found rs

-- The errors of all connectors; that of one that failed stands under its name.
abbrev pub all_errors : List (Text × Result SearchResponse) → List Text
all_errors [] = []
all_errors ((name, err e) ∷ rs) = (name ++ (bytes ": " ++ e.message)) ∷ all_errors rs
all_errors ((name, ok result) ∷ rs) = elems result.errors ++ all_errors rs

elems-append_all {ℓ} :
    {A : Type ℓ} (xs : Slice A) (ys : List A) → elems (append_all xs ys) ≡ elems xs ++ ys
elems-append_all xs [] = sym (append-nil (elems xs))
elems-append_all xs (y ∷ ys) = refl

elems-append_one {ℓ} :
    {A : Type ℓ} (xs : Slice A) (y : A) → elems (append_one xs y) ≡ elems xs ++ y ∷ []
elems-append_one none y = refl
elems-append_one (some xs) y = refl

gather-found :
    (name : Text) (r : Result SearchResponse) (g : Gathered)
    (rs : List (Text × Result SearchResponse))
    → elems (gather name r g).all_results ++ all_found rs
      ≡ elems g.all_results ++ all_found ((name, r) ∷ rs)
unfolding gather
gather-found name (err e) g rs = refl
gather-found name (ok result) g rs =
    rw (elems-append_all g.all_results (elems result.results))
      (append_assoc (elems g.all_results) (elems result.results) (all_found rs))

gather-errors :
    (name : Text) (r : Result SearchResponse) (g : Gathered)
    (rs : List (Text × Result SearchResponse))
    → elems (gather name r g).errors ++ all_errors rs
      ≡ elems g.errors ++ all_errors ((name, r) ∷ rs)
unfolding gather
gather-errors name (err e) g rs =
    rw (elems-append_one g.errors (name ++ (bytes ": " ++ e.message)))
      (append_assoc (elems g.errors) ((name ++ (bytes ": " ++ e.message)) ∷ []) (all_errors rs))
gather-errors name (ok result) g rs =
    rw (elems-append_all g.errors (elems result.errors))
      (append_assoc (elems g.errors) (elems result.errors) (all_errors rs))

module _ {S : Type 0} where
  gather_all_lem :
      (m : List (Text × Connector S)) (req : SearchRequest) (s : S) (g : Gathered)
      → (elems (gather_all m req s g).1.all_results
          ≡ elems g.all_results ++ all_found (replies m req s))
        × (elems (gather_all m req s g).1.errors ≡ elems g.errors ++ all_errors (replies m req s))
  unfolding gather_all
  gather_all_lem [] req s g =
      (sym (append-nil (elems g.all_results)), sym (append-nil (elems g.errors)))
  gather_all_lem ((name, conn) ∷ m) req s g =
      let t = (conn.search s req).0 in
      let r = (conn.search s req).1 in
      let (found, errors) = gather_all_lem m req t (gather name r g) in
      (
        found ∙ gather-found name r g (replies m req t),
        errors ∙ gather-errors name r g (replies m req t),
      )

  -- SearchAll asks every connector, in the order in which the map is visited. Of its results no
  -- two have the same canonical URL, each carries its own, and their canonical URLs are exactly
  -- those of the results that some connector answered with. Its errors are those of all
  -- connectors, in order; that of one that failed stands under its name and hides no other
  -- connector.
  pub search_all_lem :
      (u : UrlLibrary) (m : List (Text × Connector S)) (req : SearchRequest) (s : S)
      → Distinct u (elems (search_all u m req s).1.results)
        × ((k : Text)
            → seen_before k (map (canonical_of u) (elems (search_all u m req s).1.results))
              ≡ seen_before k (map (canonical_of u) (all_found (replies m req s))))
        × (elems (search_all u m req s).1.errors ≡ all_errors (replies m req s))
  unfolding search_all
  search_all_lem u m req s =
      let g : Gathered = record { all_results = none; sources_used = []; errors = none } in
      let (found, errors) = gather_all_lem m req s g in
      let (distinct, same) =
        deduplicate_results_lem u (elems (gather_all m req s g).1.all_results) in
      (distinct, λ k. same k ∙ ap (λ xs. seen_before k (map (canonical_of u) xs)) found, errors)
