-- ===== src/Tests/Hub.antt =====
-- Runs of the PubSubHubbub client.
use youtube_webhook_ingestio.Base.{pos, refl, true, some}
use youtube_webhook_ingestio.World.Action.{ok}
use youtube_webhook_ingestio.PubSubHub.{
  Hub, SubscribeRequest, SubscribeResponse, subscribe_form, subscribe,
}
use youtube_webhook_ingestio.PubSubHub.Acceptance.{Accepted, subscribe-Accepted}

abbrev pub hub : Hub
hub = record {
  parse_url = λ u. ok tt;
  new_request = λ u. ok tt;
  send = λ u form. ok (record { status_code = 202; body = ok "" });
  decimal = λ n. "864000";
}

abbrev request : SubscribeRequest
request = record {
  hub_url = "https://pubsubhubbub.appspot.com/subscribe";
  topic_url = "https://www.youtube.com/xml/feeds/videos.xml?channel_id=UCuAXFkgsw1L7xaCfnd5JJOw";
  callback_url = "https://example.com/webhook";
  lease_seconds = pos 864000;
  secret = some "secret";
}

abbrev response : SubscribeResponse
response = record {
  accepted = true;
  status_code = 202;
  response_body = "";
  lease_seconds = pos 864000;
}

subscribe-Accepted_example : Accepted hub request (subscribe_form hub request) response
unfolding subscribe
subscribe-Accepted_example = subscribe-Accepted hub request response refl
