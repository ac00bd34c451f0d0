-- ===== src/Repository/Prompts.antt =====
-- internal/db/repository/sponsor_detection.go: the prompts and the sponsors. A LIMIT or OFFSET below zero,
-- which PostgreSQL refuses, is one more fault; how the database orders texts is a parameter.
use youtube_webhook_ingestio.Base.{
  ℕ, suc, String, Bool, true, Option, none, some, List, [], ◌∷◌, ◌++◌, ◌==◌, eqb, leb, take, drop,
  is_some, if◌then◌else◌,
}
use youtube_webhook_ingestio.Errors.{no_rows, wrap_failure}
use youtube_webhook_ingestio.Models.{Time}
use youtube_webhook_ingestio.Models.Sponsor.{SponsorDetectionPrompt, Sponsor}
use youtube_webhook_ingestio.Table.{find}
use youtube_webhook_ingestio.World.Action.{
  Result, ok, err, Action, pure, fail, attempt, remote, now, ◌>>=◌,
}
use youtube_webhook_ingestio.Repository.Rows.{rows_where, descending, row_or_none}
use youtube_webhook_ingestio.Repository.Statement.{
  Statement, statement, on_tables, unique_violation,
}
use youtube_webhook_ingestio.Repository.Detection.{
  select_sponsor, by_name, find_sponsor, change_sponsor,
}
use youtube_webhook_ingestio.Repository.Detection.Results.{find_prompt, count_prompt_use}

-- `if err == pgx.ErrNoRows { return nil, nil }`
abbrev pub row_or_nil : {A : Type 0} → String → Result A → Result (Option A)
row_or_nil operation (ok a) = ok (some a)
row_or_nil operation (err no_rows) = ok none
row_or_nil operation (err e) = err (wrap_failure e operation)

unfoldable pub statement_or_nil : {A : Type 0} → String → Statement A → Action (Option A)
statement_or_nil operation s w =
    let (r, w') = remote (on_tables s) w in (row_or_nil operation r, w')

abbrev pub by_prompt_hash : SponsorDetectionPrompt → String
by_prompt_hash p = p.prompt_hash

-- `if version != "" { versionPtr = &version }`
abbrev pub pointer_if : String → Option String
pointer_if s = if s == "" then none else some s

-- INSERT INTO sponsor_detection_prompts … RETURNING …
unfoldable pub insert_prompt : String → String → String → String → Statement SponsorDetectionPrompt
insert_prompt text hash version description time db =
    let row : SponsorDetectionPrompt = record {
      id = db.next_prompt_id;
      prompt_text = text;
      prompt_hash = hash;
      version = pointer_if version;
      description = pointer_if description;
      usage_count = 0;
      created_at = time;
    } in
    if is_some (find by_prompt_hash hash db.sponsor_detection_prompts)
    then (err (unique_violation "sponsor_detection_prompts_prompt_hash_key"), db)
    else (
      ok row,
      record db {
        sponsor_detection_prompts = db.sponsor_detection_prompts ++ row ∷ [];
        next_prompt_id = suc db.next_prompt_id;
      },
    )

unfoldable pub prompt_or_new :
    String
    → String
    → String
    → String
    → Result SponsorDetectionPrompt
    → Action SponsorDetectionPrompt
unfolding pure fail
prompt_or_new text hash version description (ok p) = pure p
prompt_or_new text hash version description (err no_rows) =
    statement "create prompt" (insert_prompt text hash version description)
prompt_or_new text hash version description (err e) = fail (wrap_failure e "get prompt by hash")

-- GetOrCreatePrompt; `hash` is SHA-256 in hexadecimal.
unfoldable pub get_or_create_prompt :
    (String → String) → String → String → String → Action SponsorDetectionPrompt
unfolding ◌>>=◌
get_or_create_prompt hash text version description =
    attempt (
      remote (
        on_tables λ time db.
          (row_or_none (find by_prompt_hash (hash text) db.sponsor_detection_prompts), db)))
    >>= prompt_or_new text (hash text) version description

-- IncrementPromptUsageCount
unfoldable pub increment_prompt_usage_count : ℕ → Action (Unit {0})
increment_prompt_usage_count id = statement "increment prompt usage count" (count_prompt_use id)

-- GetPromptByID
unfoldable pub get_prompt_by_id : ℕ → Action (Option SponsorDetectionPrompt)
get_prompt_by_id id =
    statement_or_nil "get prompt by ID"
      λ time db. (row_or_none (find_prompt id db.sponsor_detection_prompts), db)

-- ListPrompts
unfoldable pub list_prompts : ℕ → ℕ → Action (List SponsorDetectionPrompt)
list_prompts limit offset = statement "list prompts" λ time db. (
  ok (
      take limit (
        drop offset
          (rows_where (λ p. true) (descending (λ p. p.created_at)) db.sponsor_detection_prompts))),
  db,
)

-- GetSponsorByNormalizedName
unfoldable pub get_sponsor_by_normalized_name : String → Action (Option Sponsor)
get_sponsor_by_normalized_name name =
    statement_or_nil "get sponsor by normalized name" (select_sponsor name)

-- The times that CreateSponsor fills in. The zero time is 0.
abbrev pub sponsor_as_created : Time → Sponsor → Sponsor
sponsor_as_created time s = record s {
  first_seen_at = if eqb s.first_seen_at 0 then time else s.first_seen_at;
  last_seen_at = if eqb s.last_seen_at 0 then time else s.last_seen_at;
}

-- INSERT INTO sponsors … RETURNING id, first_seen_at, …
unfoldable pub insert_sponsor : Sponsor → Statement Sponsor
insert_sponsor s time db =
    let row : Sponsor = record s {
      id = db.next_sponsor_id;
      video_count = 0;
      created_at = time;
      updated_at = time;
    } in
    if is_some (find by_name s.name db.sponsors)
    then (err (unique_violation "sponsors_name_key"), db)
    else (
      ok row,
      record db { sponsors = db.sponsors ++ row ∷ []; next_sponsor_id = suc db.next_sponsor_id },
    )

-- CreateSponsor; the result is the sponsor with what the statement returns.
unfoldable pub create_sponsor : Sponsor → Action Sponsor
unfolding ◌>>=◌
create_sponsor s = do
  time ← now
  statement "create sponsor" (insert_sponsor (sponsor_as_created time s))

-- UpdateSponsorLastSeen
unfoldable pub update_sponsor_last_seen : ℕ → Time → Action (Unit {0})
update_sponsor_last_seen id seen_at =
    statement "update sponsor last seen"
      (change_sponsor id λ time s. record s { last_seen_at = seen_at; updated_at = time })

-- IncrementSponsorVideoCount
unfoldable pub increment_sponsor_video_count : ℕ → Action (Unit {0})
increment_sponsor_video_count id =
    statement "increment sponsor video count"
      (change_sponsor id λ time s. record s { video_count = suc s.video_count; updated_at = time })

-- GetSponsorByID
unfoldable pub get_sponsor_by_id : ℕ → Action (Option Sponsor)
get_sponsor_by_id id =
    statement_or_nil "get sponsor by ID" λ time db. (row_or_none (find_sponsor id db.sponsors), db)

-- `validSortFields` and the order by each, where `text_order` is the order of the texts
unfoldable pub sponsor_order : (String → String → Bool) → String → Sponsor → Sponsor → Bool
sponsor_order text_order sort_by s t =
    if sort_by == "name"
    then text_order s.name t.name
    else if sort_by == "last_seen"
    then leb s.last_seen_at t.last_seen_at
    else if sort_by == "created"
    then leb s.created_at t.created_at
    else leb s.video_count t.video_count

-- ASC for "asc", and DESC for every other text
abbrev pub directed : {A : Type 0} → String → (A → A → Bool) → A → A → Bool
directed order before s t = if order == "asc" then before s t else before t s

-- WHERE category = $1, if there is one
abbrev pub has_category : String → Sponsor → Bool
has_category category s = if category == "" then true else is_category s.category
  where
    is_category : Option String → Bool
    is_category none = Bool.false
    is_category (some c) = c == category

-- ListSponsors
unfoldable pub list_sponsors :
    (String → String → Bool) → String → String → String → ℕ → ℕ → Action (List Sponsor)
list_sponsors text_order sort_by order category limit offset = statement "list sponsors" λ time db.
    (
      ok (
          take limit (
            drop offset (
              rows_where (has_category category) (directed order (sponsor_order text_order sort_by))
                db.sponsors))),
      db,
    )
