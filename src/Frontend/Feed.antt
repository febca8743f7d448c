-- ===== src/Frontend/Feed.antt =====
-- frontend/app/feed.xml/route.ts: the RSS feed of the proposals.
-- `Dates` is JavaScript's `Date` as far as the route uses it, on dates that it can read.
pub mod Xml
pub mod Entities
pub mod LineEnds
pub mod Escaping
pub mod Entries
mod Tests
use stellar_quorum.Base.{ℕ, String, Bool, List, [], ◌∷◌, map, ltb}
use stellar_quorum.Base.Result.{Result, ok, err}
use stellar_quorum.Base.Sort.{sort}
use stellar_quorum.Base.Text.{◌<>◌}
use stellar_quorum.Base.Text.Replace.{replace_all}
use stellar_quorum.Sdk.Errors.{Thrown}
use stellar_quorum.Frontend.Types.{Proposal}

-- `new Date(s).getTime()`, `new Date(s).toUTCString()`, and the latter for the present time.
pub record Dates : Type 0 where
  pub time : String → ℕ
  pub utc : String → String
  pub now : String

pub record Response : Type 0 where
  pub status : ℕ
  pub content_type : String
  pub cache_control : String
  pub body : String

unfoldable pub escape_xml : String → String
escape_xml unsafe = replace_all 39 "&apos;" (
    replace_all 34 "&quot;"
      (replace_all 62 "&gt;" (replace_all 60 "&lt;" (replace_all 38 "&amp;" unsafe))))

-- `lines.join('\n')`
unfoldable pub join_lines : List String → String
join_lines [] = ""
join_lines (x ∷ []) = x
join_lines (x ∷ y ∷ ys) = x <> "\n" <> join_lines (y ∷ ys)

module _ (dates : Dates) where
  -- The comparison is `time b - time a`.
  abbrev pub is_older : Proposal → Proposal → Bool
  is_older a b = ltb (dates.time a.start_time) (dates.time b.start_time)

  unfoldable pub newest_first : List Proposal → List Proposal
  newest_first proposals = sort is_older proposals

  unfoldable pub item : String → Proposal → String
  item site_url p =
      let link = site_url <> "/proposals/" <> p.id in
      "    <item>\n      <title>"
      <> escape_xml p.title
      <> "</title>\n      <link>"
      <> escape_xml link
      <> "</link>\n      <description>"
      <> escape_xml p.description
      <> "</description>\n      <pubDate>"
      <> dates.utc p.start_time
      <> "</pubDate>\n      <guid isPermaLink=\"true\">"
      <> escape_xml link
      <> "</guid>\n    </item>"

  abbrev channel_start : String → String
  channel_start site_link =
      "<?xml version=\"1.0\" encoding=\"UTF-8\"?>\n<rss version=\"2.0\">\n  <channel>\n    <title>Quorum Governance Proposals</title>\n    <link>"
      <> site_link
      <> "</link>\n    <description>On-chain governance proposals for the Stellar and Soroban ecosystem</description>\n    <language>en</language>\n    <lastBuildDate>"
      <> dates.now <> "</lastBuildDate>\n"

  abbrev channel_end : String
  channel_end = "  </channel>\n</rss>"

  unfoldable pub full_feed : String → List Proposal → Response
  full_feed site_url proposals = record {
    status = 200;
    content_type = "application/rss+xml; charset=utf-8";
    cache_control = "public, max-age=3600, s-maxage=3600";
    body =
        channel_start (escape_xml site_url)
        <> join_lines (map (item site_url) (newest_first proposals))
        <> "\n"
        <> channel_end;
  }

  -- The site's URL is not escaped here.
  unfoldable pub empty_feed : String → Response
  empty_feed site_url = record {
    status = 200;
    content_type = "application/rss+xml; charset=utf-8";
    cache_control = "public, max-age=60, s-maxage=60";
    body = channel_start site_url <> channel_end;
  }

  -- `site` is what `getEnv` gives or throws, in the `try` and again in the `catch`.
  unfoldable pub get : Result Thrown String → Result Thrown (List Proposal) → Result Thrown Response
  get (err e) proposals = err e
  get (ok site_url) (ok ps) = ok (full_feed site_url ps)
  get (ok site_url) (err e) = ok (empty_feed site_url)
