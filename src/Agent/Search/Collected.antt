-- ===== src/Agent/Search/Collected.antt =====
-- The links of a search, each collected once.
use rabb1t_claw.Base.{
  ℕ, Bool, true, false, ◌||◌, Option, none, some, List, [], ◌∷◌, ◌++◌, ◌≡◌, refl, ap, ◌∙◌, arith,
  if◌then◌else◌, leb, Text, codes, text_eq, text_eq_iff, contains, is_empty, unwrap_or, count_if,
  count_if-append,
}
use rabb1t_claw.Agent.Search.{
  SerperOrganic, SerperKnowledgeGraph, SerperPeopleAlsoAsk, SerperResponse, SearchResult,
  Collecting, link_of, kg_titled, kg_given, add_kg, add_link, add_links, add_question,
  add_questions, add_response, collect_all, nothing_collected, collect_and_dedup,
}
use rabb1t_claw.Json.{Json}

-- the URLs of the two kinds of special entries
abbrev pub is_special : Text → Bool
is_special u = text_eq (codes "#knowledge_graph") u || text_eq (codes "#people_also_ask") u

abbrev pub has_url : Text → SearchResult → Bool
has_url u r = text_eq r.url u

module _ (print : Json → Text) where
  -- the links among some results that are not empty
  unfoldable pub links_among : List SerperOrganic → List Text
  links_among [] = []
  links_among (r ∷ rs) =
      let url = link_of print r in if is_empty url then links_among rs else url ∷ links_among rs

  -- the links of the responses that came
  unfoldable pub links_of : List (Option SerperResponse) → List Text
  links_of [] = []
  links_of (none ∷ responses) = links_of responses
  links_of (some resp ∷ responses) = links_among (resp.organic ++ resp.news) ++ links_of responses

  contains-append :
      (xs ys : List Text) (u : Text) → contains (xs ++ ys) u ≡ (contains xs u || contains ys u)
  contains-append [] ys u = refl
  contains-append (x ∷ xs) ys u = ground (arith, contains-append xs ys u)

  contains_same : (xs : List Text) (x u : Text) → text_eq x u ≡ true → contains xs x ≡ contains xs u
  contains_same xs x u e = ap (contains xs) ((text_eq_iff x u).0 e)

  module _ (u : Text) (plain : is_special u ≡ false) where
    -- The URL stands among the results once if it is seen, and else not.
    abbrev Once : Collecting → Type 0
    Once c = count_if (has_url u) c.results ≡ (if contains c.seen_urls u then 1 else 0)

    -- What an action adds to the results has a special URL.
    pushed-Once :
        (results : List SearchResult) (seen : List Text) (r : SearchResult)
        → text_eq r.url u ≡ false
        → count_if (has_url u) results ≡ (if contains seen u then 1 else 0)
        → count_if (has_url u) (results ++ r ∷ []) ≡ (if contains seen u then 1 else 0)
    pushed-Once results seen r e h =
        ground (arith, count_if-append (has_url u) results (r ∷ []), e, h)

    -- Nothing is seen, and the count is kept.
    abbrev Keeps : Collecting → Collecting → Type 0
    Keeps c c' = Once c' × (c'.seen_urls ≡ c.seen_urls)

    either-Keeps :
        (b : Bool) (c x y : Collecting) → Keeps c x → Keeps c y → Keeps c (if b then x else y)
    either-Keeps true c x y h k = h
    either-Keeps false c x y h k = k

    kg_titled-Keeps :
        (c : Collecting) (kg : SerperKnowledgeGraph) (title : Option Text)
        → Once c
        → Keeps c (kg_titled print c kg title)
    kg_titled-Keeps c kg none h = (h, refl)
    kg_titled-Keeps c kg (some title) h =
        (pushed-Once c.results c.seen_urls _ (ground (arith, plain)) h, refl)

    kg_given-Keeps :
        (c : Collecting) (kg : Option SerperKnowledgeGraph) → Once c → Keeps c (kg_given print c kg)
    kg_given-Keeps c none h = (h, refl)
    kg_given-Keeps c (some kg) h = kg_titled-Keeps c kg kg.title h

    add_kg-Keeps :
        (c : Collecting) (kg : Option SerperKnowledgeGraph) → Once c → Keeps c (add_kg print c kg)
    unfolding add_kg
    add_kg-Keeps c kg h =
        either-Keeps c.has_kg c c (kg_given print c kg) (h, refl) (kg_given-Keeps c kg h)

    add_question-Keeps :
        (c : Collecting) (paa : SerperPeopleAlsoAsk) → Once c → Keeps c (add_question print c paa)
    add_question-Keeps c paa h =
        either-Keeps (is_empty (unwrap_or paa.question [])) c c _ (h, refl)
          (pushed-Once c.results c.seen_urls _ (ground (arith, plain)) h, refl)

    add_questions-Keeps :
        (max_paa : ℕ) (c : Collecting) (paas : List SerperPeopleAlsoAsk)
        → Once c
        → Keeps c (add_questions print max_paa c paas)
    unfolding add_questions
    add_questions-Keeps max_paa c [] h = (h, refl)
    add_questions-Keeps max_paa c (paa ∷ paas) h =
        let first = add_question-Keeps c paa h in
        let rest = add_questions-Keeps max_paa (add_question print c paa) paas first.0 in
        either-Keeps (leb max_paa c.paa_count) c c
          (add_questions print max_paa (add_question print c paa) paas) (h, refl)
          (rest.0, rest.1 ∙ first.1)

    -- The count is kept, and some links are seen.
    abbrev Sees : Collecting → List Text → Collecting → Type 0
    Sees c links c' =
        Once c' × (contains c'.seen_urls u ≡ (contains c.seen_urls u || contains links u))

    add_link-Sees :
        (c : Collecting) (r : SerperOrganic)
        → Once c
        → Sees c (links_among (r ∷ [])) (add_link print c r)
    unfolding add_link links_among
    add_link-Sees c r h =
        let url : Text = link_of print r in
        let added : SearchResult = record {
          title = unwrap_or r.title [];
          url = url;
          snippet = unwrap_or r.snippet [];
          date = unwrap_or r.date [];
        } in
        let same = contains_same c.seen_urls url u in
        ground (arith, same, h, count_if-append (has_url u) c.results (added ∷ []))

    add_links-Sees :
        (c : Collecting) (rs : List SerperOrganic)
        → Once c
        → Sees c (links_among rs) (add_links print c rs)
    unfolding add_links links_among
    add_links-Sees c [] h = (h, ground arith)
    add_links-Sees c (r ∷ rs) h =
        let first = add_link-Sees c r h in
        let rest = add_links-Sees (add_link print c r) rs first.0 in
        (rest.0, ground (arith, rest.1, first.1))

    add_response-Sees :
        (max_paa : ℕ) (c : Collecting) (resp : SerperResponse)
        → Once c
        → Sees c (links_among (resp.organic ++ resp.news)) (add_response print max_paa c resp)
    add_response-Sees max_paa c resp h =
        let kg = add_kg-Keeps c resp.knowledge_graph h in
        let links =
          add_links-Sees (add_kg print c resp.knowledge_graph) (resp.organic ++ resp.news) kg.0 in
        let linked : Collecting =
          add_links print (add_kg print c resp.knowledge_graph) (resp.organic ++ resp.news) in
        let asked = add_questions-Keeps max_paa linked resp.people_also_ask links.0 in
        (
          asked.0,
          ap (λ s. contains s u) asked.1
              ∙ (links.1
                  ∙ ap (λ s. contains s u || contains (links_among (resp.organic ++ resp.news)) u)
                      kg.1),
        )

    collect_all-Sees :
        (max_paa : ℕ) (c : Collecting) (responses : List (Option SerperResponse))
        → Once c
        → Sees c (links_of responses) (collect_all print max_paa c responses)
    unfolding collect_all links_of
    collect_all-Sees max_paa c [] h = (h, ground arith)
    collect_all-Sees max_paa c (none ∷ responses) h = collect_all-Sees max_paa c responses h
    collect_all-Sees max_paa c (some resp ∷ responses) h =
        let first = add_response-Sees max_paa c resp h in
        let rest = collect_all-Sees max_paa (add_response print max_paa c resp) responses first.0 in
        let both =
          contains-append (links_among (resp.organic ++ resp.news)) (links_of responses) u in
        (rest.0, ground (arith, rest.1, first.1, both))

  -- A URL that is not that of a special entry stands among the collected results exactly once if it is a
  -- link, not empty, of an organic or news result of a response that came, and else not at all.
  pub collect_and_dedup-links :
      (responses : List (Option SerperResponse)) (max_paa : ℕ) (u : Text)
      → is_special u ≡ false
      → count_if (has_url u) (collect_and_dedup print responses max_paa)
        ≡ (if contains (links_of responses) u then 1 else 0)
  unfolding collect_and_dedup
  collect_and_dedup-links responses max_paa u plain =
      let (once, seen) =
        collect_all-Sees u plain max_paa (nothing_collected print) responses refl in
      once ∙ ap (λ (b : Bool). if b then 1 else 0) seen
