-- ===== src/Tests/Search.antt =====
-- src/agent/search/agent.rs on two responses of the search service.
use rabb1t_claw.Base.{
  ℕ, ◌≡◌, ◌↔◌, refl, List, Option, none, some, [], ◌∷◌, if◌then◌else◌, Text, codes, join, count_if,
  contains, lookup, text_eq, find, trim, trim_start, trim_end, is_whitespace, starts_with,
}
use rabb1t_claw.Agent.Search.{
  SerperOrganic, SerperResponse, EnrichedResult, collect_and_dedup, create_context,
}
use rabb1t_claw.Agent.Search.Budgeted.{IsBudgeted, create_context-IsBudgeted}
use rabb1t_claw.Agent.Search.Collected.{has_url, links_of, collect_and_dedup-links}
use rabb1t_claw.Agent.Search.Run.{
  SearchEnv, from_config, run_search, run_search_inner, extract_json, in_json_fence, in_plain_fence,
  rfind,
}
use rabb1t_claw.Agent.Search.Run.Settled.{IsPanic, IsLeft, run_search-Settled}
use rabb1t_claw.Agent.Streaming.{opened}
use rabb1t_claw.Json.{Json}
use rabb1t_claw.State.{GatewayState}
use rabb1t_claw.Stream.{text, done}
use rabb1t_claw.Tests.Runs.{a_state}
use rabb1t_claw.Tracker.{SearchQueryStatus, TrackedItem, items_of}

abbrev organic : Text → SerperOrganic
organic link = record {
  title = some (codes "A page");
  link = some link;
  snippet = some (codes "About it");
  date = none;
}

abbrev a_response : SerperResponse
a_response = record {
  organic = organic (codes "https://a.org") ∷ organic (codes "https://b.org") ∷ [];
  news = organic (codes "https://a.org") ∷ [];
  knowledge_graph = some (record { title = some (codes "A"); description = none; attributes = [] });
  people_also_ask = record { question = some (codes "Why?"); snippet = none } ∷ [];
}

abbrev some_responses : List (Option SerperResponse)
some_responses = some a_response ∷ none ∷ some a_response ∷ []

abbrev print_none : Json → Text
print_none v = []

collect_and_dedup-links_example :
    count_if (has_url (codes "https://a.org")) (collect_and_dedup print_none some_responses 5)
    ≡ (if contains (links_of print_none some_responses) (codes "https://a.org") then 1 else 0)
collect_and_dedup-links_example =
    collect_and_dedup-links print_none some_responses 5 (codes "https://a.org")
      (unfold text_eq in refl)

abbrev page_about : Text → EnrichedResult
page_about title = record {
  title = title;
  url = codes "https://a.org";
  snippet = codes "About it";
  date = [];
  content = codes "All of it";
}

abbrev one_each : Text → List ℕ
one_each t = t

create_context-IsBudgeted_example :
    (parts : List Text) × (create_context one_each
        (λ t. some t)
        (page_about (codes "One") ∷ page_about (codes "Two") ∷ [])
        100
      ≡ join (codes "\n") parts)
    × IsBudgeted one_each
        (λ t. some t)
        100
        0
        (page_about (codes "One") ∷ page_about (codes "Two") ∷ [])
        parts
create_context-IsBudgeted_example =
    create_context-IsBudgeted one_each (λ t. some t)
      (page_about (codes "One") ∷ page_about (codes "Two") ∷ []) 100

-- a model whose plan is a text with its braces backwards
abbrev a_search_env : SearchEnv
a_search_env = record {
  encode = one_each;
  decode = λ t. some t;
  print = print_none;
  parse_plan = λ json. none;
  api_key = some (codes "key");
  chat = λ request. opened (text (codes "Close with } and open with {.") ∷ done ∷ []);
  serper = λ key request. some a_response;
  page = λ timeout url. some (codes "Its text");
  analyze_prompt = codes "Plan.";
  synthesize_prompt = codes "Answer.";
}

abbrev a_search_query : TrackedItem SearchQueryStatus
a_search_query = record {
  id = 1;
  description = codes "a";
  status = SearchQueryStatus.running;
  started_at = 5;
  completed_at = none;
}

abbrev with_search : GatewayState
with_search = record a_state { search_queries = (codes "aaaaaaaa", a_search_query ∷ []) ∷ [] }

run_search-Settled_example :
    ((run_search a_search_env
          (codes "aaaaaaaa")
          1
          9
          (from_config with_search.gateway_config)
          (codes "a")
          with_search).1
        ≡ none
      ↔ IsPanic a_search_env with_search.gateway_config
          (from_config with_search.gateway_config)
          (codes "a"))
    × IsLeft
        (codes "aaaaaaaa")
        1
        9
        with_search
        (run_search_inner a_search_env with_search.gateway_config
          (from_config with_search.gateway_config)
          (codes "a"))
        (run_search a_search_env
          (codes "aaaaaaaa")
          1
          9
          (from_config with_search.gateway_config)
          (codes "a")
          with_search).0
run_search-Settled_example =
    run_search-Settled a_search_env (codes "aaaaaaaa") 1 9 (from_config with_search.gateway_config)
      (codes "a") with_search
      (record {
        item = a_search_query;
        found = unfold items_of lookup text_eq in refl;
        running = refl;
      })

extract_json_panics : extract_json (codes "Close with } and open with {.") ≡ none
unfolding extract_json in_json_fence in_plain_fence rfind find trim trim_start trim_end
    is_whitespace starts_with
extract_json_panics = refl

extract_json_run :
    extract_json (codes "Plan:\n```json\n{\"queries\": []}\n```") ≡ some (codes "{\"queries\": []}")
unfolding extract_json in_json_fence in_plain_fence rfind find trim trim_start trim_end
    is_whitespace starts_with
extract_json_run = refl
