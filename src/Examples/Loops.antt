-- ===== src/Examples/Loops.antt =====
-- The scheduler, the workers, the shutdown and the pages of get_job, at a small database.
use domain_process_e2e.Prelude.{
  ℕ, zero, suc, ◌+◌, true, false, List, [], ◌∷◌, map, Option, none, some, length, ◌≡◌, refl, arith,
  ◌==◌,
}
use domain_process_e2e.Text.{Text, text}
use domain_process_e2e.Model.{Task, Db}
use domain_process_e2e.Jobs
use domain_process_e2e.Queue.{BoundedQueue}
use domain_process_e2e.Scheduler.{Reads}
use domain_process_e2e.Workers.{
  Worker, looping, WorkerPool, Handler, new_worker, rounds, start_pool,
}
use domain_process_e2e.Workers.Drain.{Drained, handle_all, rounds-Drained}
use domain_process_e2e.Shutdown.{
  ShutdownCoordinator, overrun, new_state, on_signal, shutdown, coordinator_shutting_down,
}
use domain_process_e2e.Shutdown.Sequence.{Event, Events, create_job_closed}
use domain_process_e2e.Routes.{page_limit}
use domain_process_e2e.Routes.Walk.{in_order}
use domain_process_e2e.Routes.Create.{http_error}
use domain_process_e2e.Routes.CreateJob.{create_job}
use domain_process_e2e.Routes.Cursor.{
  Json, object, Codec, CodecLaws, decoded, strings, cursor_fields, encode, decode, decode-encode,
}
use domain_process_e2e.Routes.Api.{result_alone, collect, get_job_complete}
use domain_process_e2e.App.{App}
use domain_process_e2e.Scheduler
use domain_process_e2e.Queue
use domain_process_e2e.Lock.{disconnected, connected}
use domain_process_e2e.Examples.{first_task, task_of, detail_of, small_db, open_job}
use domain_process_e2e.Examples.Requests.{service, ids, first_request}

abbrev db : Db
db = small_db (task_of 1 10 ∷ task_of 2 5 ∷ []) (detail_of 4 2 ∷ [])

abbrev pub queue_of : List Task → BoundedQueue Task
queue_of items = record {
  items = items;
  unfinished = length items;
  stats = record {
    capacity = 2;
    size = length items;
    max_size_reached = length items;
    total_enqueued = length items;
    total_dequeued = 0;
  };
}

abbrev reads : Reads
reads = some (queue_of [], queue_of (first_task ∷ []))

abbrev task_ids : ℕ → ℕ
task_ids d = 900 + d

-- A handler that raises on the first task and drops all tasks on the others.
abbrev handler : Handler
handler task db = (record db { tasks = [] }, task.id == 1)

rounds-Drained_example :
    Drained
      (handle_all false handler (task_of 1 10 ∷ task_of 2 5 ∷ []) db)
      (rounds false handler 2 (queue_of (task_of 1 10 ∷ task_of 2 5 ∷ []), db))
rounds-Drained_example =
    rounds-Drained false handler (queue_of (task_of 1 10 ∷ task_of 2 5 ∷ [])) db refl

abbrev pool : WorkerPool
pool = record { workers = new_worker (text "w") ∷ []; queue = queue_of []; running = true }

abbrev coordinator : ShutdownCoordinator
coordinator = record {
  task_manager = some (record { running = true; looping = true; recovering = true });
  scheduler = none;
  worker_pool = some pool;
  state = new_state;
}

abbrev closed : ShutdownCoordinator
closed = shutdown (overrun 0) true (on_signal 15 coordinator)

create_job_closed_example :
    create_job service ids 60 (coordinator_shutting_down (some closed)) none first_request db
    ≡ (http_error 503, db)
create_job_closed_example =
    create_job_closed service ids 60 none first_request db coordinator (on_signal 15 coordinator)
      closed (Event.signals 15) (Events.next Events.start (Event.shuts_down (overrun 0) true))

abbrev busy : Text → Worker
busy worker_id = record { worker_id = worker_id; running = true; loop = looping }

abbrev busy_pool : WorkerPool
busy_pool = record pool { workers = busy (text "a") ∷ busy (text "b") ∷ busy (text "c") ∷ [] }

-- The first field ends at the first 0.
abbrev put_fields : Text → Text → Text
put_fields [] t = 0 ∷ t
put_fields (x ∷ c) t = suc x ∷ put_fields c t

abbrev push_first : ℕ → Option (Text × Text) → Option (Text × Text)
push_first x none = none
push_first x (some (c, t)) = some (x ∷ c, t)

abbrev split_fields : Text → Option (Text × Text)
split_fields [] = none
split_fields (zero ∷ t) = some ([], t)
split_fields (suc x ∷ s) = push_first x (split_fields s)

split-put_fields : (c t : Text) → split_fields (put_fields c t) ≡ some (c, t)
split-put_fields [] t = refl
split-put_fields (x ∷ c) t = rw (split-put_fields c t) refl

abbrev as_json : Option (Text × Text) → Option Json
as_json none = none
as_json (some (c, t)) = some (object (strings (cursor_fields c t)))

abbrev dump : List (Text × Text) → Text
dump ((k, c) ∷ (l, t) ∷ []) = put_fields c t
dump _ = []

abbrev one_number : Text → Option ℕ
one_number (n ∷ []) = some n
one_number _ = none

abbrev pub codec : Codec
codec = record {
  isoformat = λ n. n ∷ [];
  fromisoformat = one_number;
  uuid_str = λ n. n ∷ [];
  uuid = one_number;
  dumps = dump;
  loads = λ t. as_json (split_fields t);
  urlsafe_b64encode = λ t. t;
  urlsafe_b64decode = λ t. some t;
}

pub codec-CodecLaws : CodecLaws codec
codec-CodecLaws = record {
  time_read = λ t. refl;
  id_read = λ i. refl;
  json_read = λ c t. rw (split-put_fields c t) refl;
  base64_read = λ t. refl;
}

decode-encode_example : decode codec (encode codec (5, 2)) ≡ decoded (5, 2)
decode-encode_example = decode-encode codec codec-CodecLaws (5, 2)

get_job_complete_example :
    collect codec 100 1000 db 7 (some 1) 3 none ≡ map (result_alone db) (in_order db.tasks 7 1)
get_job_complete_example =
    get_job_complete codec 100 1000 db 7 (some 1) 3 1 open_job codec-CodecLaws
      (unfold Jobs.get in refl) (unfold page_limit in refl) (omega arith) (refl, (refl, tt))
      (omega arith)

abbrev pub made : App
made = record {
  coordinator = record coordinator {
    task_manager = some (record { running = false; looping = false; recovering = false });
    scheduler = some (record { running = false; looping = false });
    worker_pool = some (record pool { running = false });
  };
  lock_client = disconnected;
}

abbrev pub started : App
started = record {
  coordinator = record coordinator {
    scheduler = some (record { running = true; looping = true });
    worker_pool = some (start_pool (record pool { running = false }));
  };
  lock_client = connected;
}
