-- ===== src/Agent/Search/Run.antt =====
-- src/agent/search/agent.rs: the plan of a search, its requests and its run. `none` is the panic of a
-- slice, which ends the thread of the search.
pub mod Settled
use mathlib.Core.Option
use rabb1t_claw.Base.{
  ℕ, zero, suc, ◌+◌, Bool, true, false, ◌||◌, Option, none, some, List, [], ◌∷◌, ◌++◌,
  if◌then◌else◌, ◌==◌, Text, codes, find, trim, text_eq, and_then, unwrap_or, map, map_or, is_empty,
  drop, take, ◌>>=◌,
}
use rabb1t_claw.Agent.Advanced.Compress.{user_message}
use rabb1t_claw.Agent.Background.{decimal}
use rabb1t_claw.Agent.Request.{ChatRequest, chat_request}
use rabb1t_claw.Agent.Search.{
  SerperResponse, SearchResult, EnrichedResult, collect_and_dedup, enrich_results, create_context,
}
use rabb1t_claw.Agent.Streaming.{ChatStream, collected}
use rabb1t_claw.Config.{GatewayConfig, AgentConfig, agent_config, search}
use rabb1t_claw.Config.Resolve.{ResolvedAgentModel, resolve_agent_model}
use rabb1t_claw.Json.{Json}
use rabb1t_claw.Markers.{slice}
use rabb1t_claw.State.{GatewayState}
use rabb1t_claw.Stream.{Collected, ok, err}
use rabb1t_claw.Tracker.{SearchQueryStatus, search_status, complete}

abbrev pub default_search_max_results : ℕ
default_search_max_results = 10

abbrev pub default_search_max_news : ℕ
default_search_max_news = 5

abbrev pub default_search_max_people_also_ask : ℕ
default_search_max_people_also_ask = 5

abbrev pub default_search_max_total_tokens : ℕ
default_search_max_total_tokens = 16000

abbrev pub default_search_max_total_tokens_thorough : ℕ
default_search_max_total_tokens_thorough = 32000

abbrev pub default_search_max_page_tokens : ℕ
default_search_max_page_tokens = 4000

abbrev pub default_search_fetch_timeout_secs : ℕ
default_search_fetch_timeout_secs = 15

pub record SearchLimits : Type 0 where
  pub max_results : ℕ
  pub max_news : ℕ
  pub max_people_also_ask : ℕ
  pub max_total_tokens : ℕ
  pub max_total_tokens_thorough : ℕ
  pub max_page_tokens : ℕ
  pub fetch_timeout_secs : ℕ

unfoldable pub from_config : GatewayConfig → SearchLimits
from_config cfg =
    let or_default : (AgentConfig → Option ℕ) → ℕ → ℕ =
      λ field default. unwrap_or (and_then (agent_config cfg search) field) default in
    record {
      max_results = or_default (λ a. a.max_results) default_search_max_results;
      max_news = or_default (λ a. a.max_news) default_search_max_news;
      max_people_also_ask =
          or_default (λ a. a.max_people_also_ask) default_search_max_people_also_ask;
      max_total_tokens = or_default (λ a. a.max_total_tokens) default_search_max_total_tokens;
      max_total_tokens_thorough =
          or_default (λ a. a.max_total_tokens_thorough) default_search_max_total_tokens_thorough;
      max_page_tokens = or_default (λ a. a.max_page_tokens) default_search_max_page_tokens;
      fetch_timeout_secs = or_default (λ a. a.fetch_timeout_secs) default_search_fetch_timeout_secs;
    }

pub record AnalyzedQuery : Type 0 where
  pub q : Text
  pub search_type : Text
  pub gl : Option Text
  pub hl : Option Text
  pub tbs : Option Text
  pub location : Option Text

pub record AnalyzeOutput : Type 0 where
  pub depth : Text
  pub queries : List AnalyzedQuery

-- `text.rfind(char)`
unfoldable pub rfind : ℕ → Text → Option ℕ
rfind c [] = none
rfind c (d ∷ ds) = elim (rfind c ds) [
  | some n ↦ some (suc n)
  | none ↦ if d == c then some 0 else none
]

-- what stands behind an opened fence, up to the next one
abbrev until_fence : Text → Option Text
until_fence after = Option.map (λ end. trim (take end after)) (find (codes "```") after)

unfoldable pub in_json_fence : Text → Option Text
in_json_fence trimmed =
    and_then (find (codes "```json") trimmed) λ start. until_fence (drop (start + 7) trimmed)

abbrev behind_tag : Text → Text
behind_tag after = map_or (find (codes "\n") after) after λ nl. drop (nl + 1) after

unfoldable pub in_plain_fence : Text → Option Text
in_plain_fence trimmed =
    and_then (find (codes "```") trimmed)
      λ start. until_fence (behind_tag (drop (start + 3) trimmed))

-- from the first brace that opens to the last one that closes
abbrev pub braced : Text → Option ℕ → Option ℕ → Option Text
braced trimmed (some start) (some end) = slice trimmed start (end + 1)
braced trimmed _ _ = some trimmed

abbrev or_braced : Text → Option Text → Option Text → Option Text
or_braced trimmed (some json) plain = some json
or_braced trimmed none (some json) = some json
or_braced trimmed none none = braced trimmed (find (codes "{") trimmed) (rfind b'}' trimmed)

unfoldable pub extract_json : Text → Option Text
extract_json response =
    let trimmed = trim response in
    or_braced trimmed (in_json_fence trimmed) (in_plain_fence trimmed)

unfoldable pub default_plan : Text → Text × List AnalyzedQuery
default_plan query = (
  codes "thorough",
  record {
    q = query;
    search_type = codes "search";
    gl = none;
    hl = none;
    tbs = none;
    location = none;
  }
      ∷ [],
)

unfoldable pub make_variant : AnalyzedQuery → Text → Option Text → AnalyzedQuery
make_variant aq type_str tbs = record aq { search_type = type_str; tbs = tbs }

abbrev past_day : Option Text
past_day = some (codes "qdr:d")

unfoldable pub search_queries : Text → List AnalyzedQuery → List AnalyzedQuery
search_queries depth [] = []
search_queries depth (aq ∷ aqs) =
    let rest = search_queries depth aqs in
    if text_eq depth (codes "quick")
    then make_variant aq (codes "search") past_day ∷ rest
    else make_variant aq (codes "search") aq.tbs
      ∷ make_variant aq (codes "search") past_day
      ∷ make_variant aq (codes "news") none
      ∷ rest

-- the request that `fetch_serper` posts; the optional fields are left out when they are `none`
pub record SerperRequest : Type 0 where
  pub endpoint : Text
  pub q : Text
  pub num : ℕ
  pub gl : Option Text
  pub hl : Option Text
  pub tbs : Option Text
  pub location : Option Text

abbrev serper_request : SearchLimits → AnalyzedQuery → SerperRequest
serper_request limits sq = record {
  endpoint =
      if text_eq sq.search_type (codes "news")
      then codes "https://google.serper.dev/news"
      else codes "https://google.serper.dev/search";
  q = sq.q;
  num = if text_eq sq.search_type (codes "news") then limits.max_news else limits.max_results;
  gl = sq.gl;
  hl = sq.hl;
  tbs = sq.tbs;
  location = sq.location;
}

abbrev pub status_of : Collected → SearchQueryStatus
status_of (ok context) = SearchQueryStatus.completed context
status_of (err e) = SearchQueryStatus.failed e

abbrev event_of : ℕ → Collected → Text
event_of query_id (ok context) =
    codes "completed #" ++ (decimal query_id ++ (codes " — " ++ context))
event_of query_id (err e) = codes "failed #" ++ (decimal query_id ++ (codes " — " ++ e))

abbrev pub search_ended :
    Text → ℕ → ℕ → GatewayState → Option Collected → GatewayState × Option Text
search_ended prefix query_id now s none = (s, none)
search_ended prefix query_id now s (some r) = (
  record s { search_queries = complete s.search_queries prefix query_id (status_of r) now },
  some (event_of query_id r),
)

-- What a search meets outside: the tokenizer, `serde_json`, the key, the model, the search service, with
-- `none` for any failure, and the text of a page, if it is fetched in time and extracted.
pub record SearchEnv : Type 0 where
  pub encode : Text → List ℕ
  pub decode : List ℕ → Option Text
  pub print : Json → Text
  pub parse_plan : Text → Option AnalyzeOutput
  pub api_key : Option Text
  pub chat : ChatRequest → ChatStream
  pub serper : Text → SerperRequest → Option SerperResponse
  pub page : ℕ → Text → Option Text
  pub analyze_prompt : Text
  pub synthesize_prompt : Text

module _ (env : SearchEnv) where
  abbrev call_llm : ResolvedAgentModel → Text → Text → Collected
  call_llm resolved system_prompt user_content =
      collected
        (env.chat (chat_request resolved (user_message user_content ∷ []) (some system_prompt)))

  abbrev depth_of : Text → Text
  depth_of depth =
      if text_eq depth (codes "quick") || text_eq depth (codes "thorough")
      then depth
      else codes "thorough"

  abbrev plan_of : Text → Option AnalyzeOutput → Text × List AnalyzedQuery
  plan_of query none = default_plan query
  plan_of query (some output) =
      if is_empty output.queries
      then default_plan query
      else (depth_of output.depth, output.queries)

  -- the answer to the request for a plan, or the plan that stands for it
  abbrev plan_read : Text → Collected → Option (Text × List AnalyzedQuery)
  plan_read query (err e) = some (default_plan query)
  plan_read query (ok response) =
      Option.map (λ json. plan_of query (env.parse_plan json)) (extract_json response)

  unfoldable pub plan : Option ResolvedAgentModel → Text → Option (Text × List AnalyzedQuery)
  plan none query = some (default_plan query)
  plan (some resolved) query = plan_read query (call_llm resolved env.analyze_prompt query)

  abbrev fetch_and_extract : ℕ → Text → Option Text
  fetch_and_extract timeout_secs url =
      and_then (env.page timeout_secs url) λ text. if is_empty (trim text) then none else some text

  abbrev synthesized : Option ResolvedAgentModel → Text → Text → Collected
  synthesized none query raw_context = err (codes "no search model configured for synthesis")
  synthesized (some resolved) query raw_context = call_llm resolved env.synthesize_prompt (
      codes "## Original Query\n\n"
      ++ (query ++ (codes "\n\n## Search Results\n\n" ++ raw_context)))

  -- the search itself, with its plan
  unfoldable pub searched :
      Text → Option ResolvedAgentModel → SearchLimits → Text → Text × List AnalyzedQuery → Collected
  searched api_key resolved limits query (depth, analyzed_queries) =
      let responses =
        map (λ sq. env.serper api_key (serper_request limits sq))
          (search_queries depth analyzed_queries) in
      let all_results = collect_and_dedup env.print responses limits.max_people_also_ask in
      let enriched =
        enrich_results env.encode env.decode (fetch_and_extract limits.fetch_timeout_secs)
          limits.max_page_tokens all_results in
      let total_budget =
        if text_eq depth (codes "thorough")
        then limits.max_total_tokens_thorough
        else limits.max_total_tokens in
      if is_empty all_results
      then err (codes "no search results found")
      else if is_empty enriched
      then err (codes "no results could be enriched")
      else synthesized resolved query (create_context env.encode env.decode enriched total_budget)

  abbrev with_key : Option Text → GatewayConfig → SearchLimits → Text → Option Collected
  with_key none cfg limits query = some (err (codes "SERP_API_KEY not set"))
  with_key (some key) cfg limits query =
      let resolved = resolve_agent_model cfg search in
      Option.map (searched key resolved limits query) (plan resolved query)

  unfoldable pub run_search_inner : GatewayConfig → SearchLimits → Text → Option Collected
  run_search_inner cfg limits query = with_key env.api_key cfg limits query

  -- the state at its end, and the line of the task log; no line, and no end, where it panics
  unfoldable pub run_search :
      Text → ℕ → ℕ → SearchLimits → Text → GatewayState → GatewayState × Option Text
  run_search prefix query_id now limits query s =
      search_ended prefix query_id now s (run_search_inner s.gateway_config limits query)
