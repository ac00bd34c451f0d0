-- ===== src/Queue/Client/Effects.antt =====
-- What EnqueueVideoEnrichment may change, whatever fails: at most one task, for the video that it
-- is given, and the table of jobs.
use youtube_webhook_ingestio.Base.{
  ℕ, String, ◌≡◌, refl, sym, subst, ◌∙◌, ◌⊎◌, inl, inr, [], ◌∷◌, ◌++◌, arith,
}
use youtube_webhook_ingestio.Models.{EnrichmentJob}
use youtube_webhook_ingestio.World.{
  Fault, served, refused, lost, World, enrich_video, EnrichVideoPayload,
}
use youtube_webhook_ingestio.World.Action.{
  answer, next_fault, later_faults, Result, ok, err, lift, attempt, context, remote, now, ◌>>=◌,
}
use youtube_webhook_ingestio.World.Keeps.{
  IsSteady, Keeps, Keeps-then, Keeps-bind, Keeps-now, Keeps-attempt, Keeps-pure, Keeps-remote,
}
use youtube_webhook_ingestio.Externals.{Externals}
use youtube_webhook_ingestio.Repository.Statement.{statement, on_tables, Statement}
use youtube_webhook_ingestio.Repository.Jobs.{as_created, insert_job, create_job}
use youtube_webhook_ingestio.Queue.{new_enrich_video_task}
use youtube_webhook_ingestio.Queue.Client.{
  push_task, video_job, track_job, submit_task, webhook_task, enqueue_video_enrichment,
}

-- The tables of the events and their projections are as they were.
pub record SameRecords (w w' : World) : Type 0 where
  pub events : w'.db.webhook_events ≡ w.db.webhook_events
  pub channels : w'.db.channels ≡ w.db.channels
  pub videos : w'.db.videos ≡ w.db.videos
  pub updates : w'.db.video_updates ≡ w.db.video_updates

-- So is the queue.
pub record OnlyJobs (w w' : World) : Type 0 where
  pub records : SameRecords w w'
  pub tasks : w'.tasks ≡ w.tasks

SameRecords-trans : {u v w : World} → SameRecords u v → SameRecords v w → SameRecords u w
SameRecords-trans p q = record {
  events = q.events ∙ p.events;
  channels = q.channels ∙ p.channels;
  videos = q.videos ∙ p.videos;
  updates = q.updates ∙ p.updates;
}

SameRecords-of_db : {w v : World} → w.db ≡ v.db → SameRecords w v
SameRecords-of_db e = record {
  events = λ i. (sym e i).webhook_events;
  channels = λ i. (sym e i).channels;
  videos = λ i. (sym e i).videos;
  updates = λ i. (sym e i).video_updates;
}

OnlyJobs-IsSteady : IsSteady OnlyJobs
OnlyJobs-IsSteady = record {
  refl_at = λ w. record { records = SameRecords-of_db refl; tasks = refl };
  trans_at = λ u v w p q. record {
    records = SameRecords-trans p.records q.records;
    tasks = q.tasks ∙ p.tasks;
  };
  environment = λ w v d b t. record { records = SameRecords-of_db d; tasks = sym t };
}

insert_job-OnlyJobs : (job : EnrichmentJob) → Keeps OnlyJobs (on_tables (insert_job job))
unfolding insert_job
insert_job-OnlyJobs job = record { at = λ w. ground arith }

pub Keeps-statement :
    {R : World → World → Type 0} {A : Type 0} (operation : String) (s : Statement A)
    → IsSteady R
    → Keeps R (on_tables s)
    → Keeps R (statement operation s)
unfolding statement
Keeps-statement operation s steady k = record {
  at = λ w. (Keeps-remote steady (on_tables s) k).at w;
}

create_job-OnlyJobs : (job : EnrichmentJob) → Keeps OnlyJobs (create_job job)
unfolding create_job
create_job-OnlyJobs job = Keeps-bind OnlyJobs-IsSteady now _ (Keeps-now OnlyJobs-IsSteady) λ t.
    Keeps-statement "create enrichment job" (insert_job (as_created t job)) OnlyJobs-IsSteady
      (insert_job-OnlyJobs (as_created t job))

-- At most one task was added, and it is for the video.
pub record AtMostOneTask (video_id : String) (w w' : World) : Type 0 where
  pub records : SameRecords w w'
  pub tasks :
      (w'.tasks ≡ w.tasks)
      ⊎ ((t : EnrichVideoPayload) × (w'.tasks ≡ w.tasks ++ enrich_video t ∷ [])
          × (t.video_id ≡ video_id))

pushed :
    (x : Externals) (t : EnrichVideoPayload)
    → Keeps (AtMostOneTask t.video_id) (push_task x (enrich_video t))
unfolding push_task
pushed x t = record {
  at = λ w. record { records = SameRecords-of_db refl; tasks = inr (t, refl, refl) };
}

AtMostOneTask-none :
    {video_id : String} {w w' : World} → OnlyJobs w w' → AtMostOneTask video_id w w'
AtMostOneTask-none p = record { records = p.records; tasks = inl p.tasks }

AtMostOneTask-before :
    {video_id : String} {u v w : World}
    → OnlyJobs u v
    → AtMostOneTask video_id v w
    → AtMostOneTask video_id u w
AtMostOneTask-before {video_id} {u} {v} {w} p q = record {
  records = SameRecords-trans p.records q.records;
  tasks =
      subst
        (λ ts.
          (w.tasks ≡ ts)
          ⊎ ((t : EnrichVideoPayload) × (w.tasks ≡ ts ++ enrich_video t ∷ [])
              × (t.video_id ≡ video_id)))
        p.tasks q.tasks;
}

AtMostOneTask-after :
    {video_id : String} {u v w : World}
    → AtMostOneTask video_id u v
    → OnlyJobs v w
    → AtMostOneTask video_id u w
AtMostOneTask-after {video_id} {u} {v} {w} q p = record {
  records = SameRecords-trans q.records p.records;
  tasks =
      subst
        (λ ts.
          (ts ≡ u.tasks)
          ⊎ ((t : EnrichVideoPayload) × (ts ≡ u.tasks ++ enrich_video t ∷ [])
              × (t.video_id ≡ video_id)))
        (sym p.tasks) q.tasks;
}

track_job-OnlyJobs :
    (task_id video_id channel_id : String) (priority : ℕ)
    → Keeps OnlyJobs (track_job task_id video_id channel_id priority)
unfolding track_job
track_job-OnlyJobs task_id video_id channel_id priority =
    let s : IsSteady OnlyJobs = OnlyJobs-IsSteady in
    Keeps-bind s now _ (Keeps-now s) λ t.
      Keeps-bind s (attempt (create_job (video_job task_id video_id channel_id priority t))) _
        (Keeps-attempt s _ (create_job-OnlyJobs (video_job task_id video_id channel_id priority t)))
        (λ r. Keeps-pure s tt)

push-AtMostOneTask :
    (x : Externals) (t : EnrichVideoPayload) (f : Fault) (w : World)
    → AtMostOneTask t.video_id w (answer f (push_task x (enrich_video t)) w).1
unfolding answer
push-AtMostOneTask x t served w = (pushed x t).at w
push-AtMostOneTask x t (refused e) w = AtMostOneTask-none (OnlyJobs-IsSteady.refl_at w)
push-AtMostOneTask x t (lost e) w = (pushed x t).at w

remote_push-AtMostOneTask :
    (x : Externals) (t : EnrichVideoPayload)
    → Keeps (AtMostOneTask t.video_id) (remote (push_task x (enrich_video t)))
unfolding remote
remote_push-AtMostOneTask x t = record {
  at = λ w.
      let v : World = record w { faults = later_faults w.faults } in
      AtMostOneTask-before (OnlyJobs-IsSteady.environment w v refl refl refl)
        (push-AtMostOneTask x t (next_fault w.faults) v);
}

submit_task-AtMostOneTask :
    (x : Externals) (t : EnrichVideoPayload) (channel_id : String) (priority : ℕ)
    → Keeps (AtMostOneTask t.video_id) (submit_task x t channel_id priority)
unfolding submit_task context
submit_task-AtMostOneTask x t channel_id priority = record {
  at = λ w.
      let (v, p, q) =
        (Keeps-then {R = AtMostOneTask t.video_id} {S = OnlyJobs}
            (context "failed to enqueue task" (remote (push_task x (enrich_video t))))
            (λ task_id. track_job task_id t.video_id channel_id priority)
            (record { at = (remote_push-AtMostOneTask x t).at })
            (λ task_id. track_job-OnlyJobs task_id t.video_id channel_id priority)
            OnlyJobs-IsSteady.refl_at).at
          w in
      AtMostOneTask-after p q;
}

-- The payload, if there is one, is for the video that was asked for.
task_video :
    (x : Externals) (video_id channel_id : String) (priority time : ℕ) (t : EnrichVideoPayload)
    → webhook_task x video_id channel_id priority time ≡ ok t
    → t.video_id ≡ video_id
unfolding new_enrich_video_task
task_video x video_id channel_id priority time t h = ground arith

submit_result :
    (x : Externals) (video_id channel_id : String) (priority : ℕ) (r : Result EnrichVideoPayload)
    → ((t : EnrichVideoPayload) → r ≡ ok t → t.video_id ≡ video_id)
    → Keeps (AtMostOneTask video_id) (
        context "failed to create task payload" (lift r) >>= λ payload.
        submit_task x payload channel_id priority)
unfolding context ◌>>=◌
submit_result x video_id channel_id priority (ok t) h =
    subst (λ v. Keeps (AtMostOneTask v) (submit_task x t channel_id priority)) (h t refl)
      (submit_task-AtMostOneTask x t channel_id priority)
submit_result x video_id channel_id priority (err e) h = record {
  at = λ w. AtMostOneTask-none (OnlyJobs-IsSteady.refl_at w);
}

-- Whatever fails, the call adds at most one task, which is for the video, and leaves the events
-- and their projections alone.
pub enqueue_video_enrichment-AtMostOneTask :
    (x : Externals) (video_id channel_id : String) (priority : ℕ)
    → Keeps (AtMostOneTask video_id) (enqueue_video_enrichment x video_id channel_id priority)
unfolding enqueue_video_enrichment now
enqueue_video_enrichment-AtMostOneTask x video_id channel_id priority = record {
  at = λ w.
      let v : World = (now w).1 in
      AtMostOneTask-before (OnlyJobs-IsSteady.environment w v refl refl refl) (
        (submit_result x video_id channel_id priority
            (webhook_task x video_id channel_id priority v.clock)
            (task_video x video_id channel_id priority v.clock)).at
          v);
}
