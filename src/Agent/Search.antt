-- ===== src/Agent/Search.antt =====
-- src/agent/search/agent.rs: the results of a search, their collection and the context that is made
-- of them. The child Run has the plan and the run.
pub mod Collected
pub mod Run
pub mod Budgeted
use rabb1t_claw.Base.{
  ℕ, zero, suc, ◌+◌, Bool, true, false, not, ◌&&◌, Option, none, some, List, [], ◌∷◌, ◌++◌,
  if◌then◌else◌, ltb, leb, Text, codes, contains, is_empty, join, map, map_or, starts_with,
  unwrap_or,
}
use rabb1t_claw.Json.{Json, as_str}
use rabb1t_claw.Tracker.Truncate.{count_tokens, truncate}

pub record SerperOrganic : Type 0 where
  pub title : Option Text
  pub link : Option Text
  pub snippet : Option Text
  pub date : Option Text

-- the entries of the attributes, in the order of iteration
pub record SerperKnowledgeGraph : Type 0 where
  pub title : Option Text
  pub description : Option Text
  pub attributes : List (Text × Json)

pub record SerperPeopleAlsoAsk : Type 0 where
  pub question : Option Text
  pub snippet : Option Text

pub record SerperResponse : Type 0 where
  pub organic : List SerperOrganic
  pub news : List SerperOrganic
  pub knowledge_graph : Option SerperKnowledgeGraph
  pub people_also_ask : List SerperPeopleAlsoAsk

pub record SearchResult : Type 0 where
  pub title : Text
  pub url : Text
  pub snippet : Text
  pub date : Text

pub record EnrichedResult : Type 0 where
  pub title : Text
  pub url : Text
  pub snippet : Text
  pub date : Text
  pub content : Text

-- the variables of `collect_and_dedup`
pub record Collecting : Type 0 where
  pub seen_urls : List Text
  pub results : List SearchResult
  pub has_kg : Bool
  pub paa_count : ℕ

-- `print` is how a JSON value is displayed.
module _ (print : Json → Text) where
  abbrev attribute : Text × Json → Text
  attribute (k, v) = k ++ (codes ": " ++ unwrap_or (as_str (some v)) (print v))

  abbrev kg_body : SerperKnowledgeGraph → Text
  kg_body kg =
      let body = unwrap_or kg.description [] in
      if is_empty kg.attributes
      then body
      else (if is_empty body then body else body ++ codes " | ")
        ++ join (codes " | ") (map attribute kg.attributes)

  abbrev pub kg_titled : Collecting → SerperKnowledgeGraph → Option Text → Collecting
  kg_titled c kg none = c
  kg_titled c kg (some title) = record c {
    results =
        c.results
        ++ record { title = title; url = codes "#knowledge_graph"; snippet = kg_body kg; date = [] }
          ∷ [];
    has_kg = true;
  }

  abbrev pub kg_given : Collecting → Option SerperKnowledgeGraph → Collecting
  kg_given c none = c
  kg_given c (some kg) = kg_titled c kg kg.title

  unfoldable pub add_kg : Collecting → Option SerperKnowledgeGraph → Collecting
  add_kg c kg = if c.has_kg then c else kg_given c kg

  abbrev pub link_of : SerperOrganic → Text
  link_of r = unwrap_or r.link []

  unfoldable pub add_link : Collecting → SerperOrganic → Collecting
  add_link c r =
      let url = link_of r in
      if not (is_empty url) && not (contains c.seen_urls url)
      then record c {
        seen_urls = url ∷ c.seen_urls;
        results =
            c.results
            ++ record {
              title = unwrap_or r.title [];
              url = url;
              snippet = unwrap_or r.snippet [];
              date = unwrap_or r.date [];
            }
              ∷ [];
      }
      else c

  unfoldable pub add_links : Collecting → List SerperOrganic → Collecting
  add_links c [] = c
  add_links c (r ∷ rs) = add_links (add_link c r) rs

  abbrev pub add_question : Collecting → SerperPeopleAlsoAsk → Collecting
  add_question c paa =
      let q = unwrap_or paa.question [] in
      if is_empty q then c else record c {
        results =
            c.results
            ++ record {
              title = codes "Q: " ++ q;
              url = codes "#people_also_ask";
              snippet = unwrap_or paa.snippet [];
              date = [];
            }
              ∷ [];
        paa_count = c.paa_count + 1;
      }

  unfoldable pub add_questions : ℕ → Collecting → List SerperPeopleAlsoAsk → Collecting
  add_questions max_paa c [] = c
  add_questions max_paa c (paa ∷ paas) =
      let rest = add_questions max_paa (add_question c paa) paas in
      if leb max_paa c.paa_count then c else rest

  abbrev pub add_response : ℕ → Collecting → SerperResponse → Collecting
  add_response max_paa c resp =
      add_questions max_paa (add_links (add_kg c resp.knowledge_graph) (resp.organic ++ resp.news))
        resp.people_also_ask

  -- `none` is a request that failed
  unfoldable pub collect_all : ℕ → Collecting → List (Option SerperResponse) → Collecting
  collect_all max_paa c [] = c
  collect_all max_paa c (none ∷ responses) = collect_all max_paa c responses
  collect_all max_paa c (some resp ∷ responses) =
      collect_all max_paa (add_response max_paa c resp) responses

  abbrev pub nothing_collected : Collecting
  nothing_collected = record { seen_urls = []; results = []; has_kg = false; paa_count = 0 }

  unfoldable pub collect_and_dedup : List (Option SerperResponse) → ℕ → List SearchResult
  unfolding collect_all
  collect_and_dedup responses max_paa = (collect_all max_paa nothing_collected responses).results

module _ (encode : Text → List ℕ) (decode : List ℕ → Option Text) where
  -- The fetches run in parallel, one for each result that is no special entry, and are mapped back to
  -- their results.
  abbrev pub enriched : (Text → Option Text) → ℕ → SearchResult → EnrichedResult
  enriched fetch max_page_tokens r = record {
    title = r.title;
    url = r.url;
    snippet = r.snippet;
    date = r.date;
    content =
        if starts_with r.url (codes "#")
        then r.snippet
        else map_or (fetch r.url) [] (λ text. truncate encode decode text max_page_tokens);
  }

  unfoldable pub enrich_results : (Text → Option Text) → ℕ → List SearchResult → List EnrichedResult
  enrich_results fetch max_page_tokens results = map (enriched fetch max_page_tokens) results

  unfoldable pub entry : EnrichedResult → Text
  entry r =
      let content_section = if is_empty r.content then r.snippet else r.content in
      let date_part = if is_empty r.date then [] else codes "\nDate: " ++ r.date in
      codes "Title: "
      ++ (r.title
          ++ (codes "\nURL: "
              ++ (r.url
                  ++ (date_part
                      ++ (codes "\nSnippet: "
                          ++ (r.snippet
                              ++ (codes "\nContent: " ++ (content_section ++ codes "\n"))))))))

  -- the loop that collects the parts, until one does not fit
  unfoldable pub context_parts : ℕ → ℕ → List EnrichedResult → List Text
  context_parts max_total_tokens total_tokens [] = []
  context_parts max_total_tokens total_tokens (r ∷ rs) =
      let entry_tokens = count_tokens encode decode (entry r) in
      let rest = context_parts max_total_tokens (total_tokens + entry_tokens) rs in
      if ltb max_total_tokens (total_tokens + entry_tokens) then [] else entry r ∷ rest

  unfoldable pub create_context : List EnrichedResult → ℕ → Text
  create_context results max_total_tokens =
      join (codes "\n") (context_parts max_total_tokens 0 results)
