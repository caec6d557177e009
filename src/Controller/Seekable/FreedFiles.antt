-- ===== src/Controller/Seekable/FreedFiles.antt =====
-- Controller.cpp with `seekable` and without caching: no task writes to a file that has been released.
use pipefs.Common.{
  ℕ, ◌≡◌, refl, sym, ap, ◌∙◌, subst, true, false, none, some, arith, Bytes, List, ◌∷◌, drop, length,
}
use pipefs.SpawnCommand.{Answers}
use pipefs.Caches.{CacheData}
use pipefs.Caches.Sorting.{Sorter}
use pipefs.ReadLoop
use pipefs.ReadLoop.{ReadLoop, Handler, Env}
use pipefs.ReadLoop.{in_running}
use pipefs.Controller.Commands.{new_controller, in_posted, in_reading}
use pipefs.Controller.Session.{
  Session, Step, opens, fails_to_open, preloads, reads, releases, completes, runs,
}
use pipefs.Controller.Seekable.Pending.{is_active, uses, tasks_for, posted_for}
use pipefs.Controller.Seekable.Guarded.{IsGuarded}
use pipefs.Controller.Commands.{alive}
use pipefs.Controller.Seekable.Frames.{with_loop}
use pipefs.Controller.Seekable.Starts.{StartsSafely, handle-StartsSafely}
use pipefs.Controller.Seekable.Runs.{run_posted-IsGuarded}
use pipefs.Controller.Seekable.Opens.{open_file-IsGuarded}
use pipefs.Controller.Seekable.Calls.{
  preload-same, release-IsGuarded, read-IsGuarded, completed-IsGuarded,
}

module _ (sorter : Sorter Bytes CacheData (λ d. d.last_accessed)) where
  Step-IsGuarded :
      {s t : Session} → Step sorter s t → IsGuarded s.controller → IsGuarded t.controller
  Step-IsGuarded {s} (opens w filename fi fi' address c room e) v =
      subst IsGuarded (ap (λ r. r.0) e) (open_file-IsGuarded w s.controller filename fi v)
  Step-IsGuarded {s} (fails_to_open w filename fi errno c room e) v =
      subst IsGuarded (ap (λ r. r.0) e) (open_file-IsGuarded w s.controller filename fi v)
  Step-IsGuarded {s} (preloads w filename c r room e) v =
      subst IsGuarded (sym (preload-same w s.controller filename v.caching) ∙ ap (λ r. r.0) e) v
  Step-IsGuarded {s} (reads w filename address size offset c r named e) v =
      subst IsGuarded (ap (λ r. r.0) e) (read-IsGuarded w s.controller address size offset v)
  Step-IsGuarded {s} (releases w filename address c r named e) v =
      subst IsGuarded (ap (λ r. r.0) e) (release-IsGuarded sorter w s.controller filename address v)
  Step-IsGuarded {s} (completes before after stream cache failed bytes e) v =
      completed-IsGuarded s.controller before after stream cache failed bytes e v
  Step-IsGuarded {s} (runs answers c e) v = run_posted-IsGuarded answers s.controller c e v

  -- With `seekable` and without caching, from the constructor on.
  pub data Reach (cache_limit process_limit : ℕ) : Session → Type 0 where
    start : Reach cache_limit process_limit (record {
      controller = new_controller true false cache_limit process_limit;
      names = λ _. none;
    })
    next :
        {s t : Session}
        → Reach cache_limit process_limit s
        → Step sorter s t
        → Reach cache_limit process_limit t

  new-IsGuarded :
      (cache_limit process_limit : ℕ)
      → IsGuarded (new_controller true false cache_limit process_limit)
  unfolding uses is_active tasks_for posted_for in_running in_reading in_posted
  new-IsGuarded cache_limit process_limit = record {
    caching = refl;
    seeks = refl;
    unnamed = refl;
    waiting = record { queued = tt; posted = tt };
    one_use = λ cache. omega arith;
    fresh = λ cache new. (refl, λ n. refl);
  }

  Reach-IsGuarded :
      {cache_limit process_limit : ℕ} {s : Session}
      → Reach cache_limit process_limit s
      → IsGuarded s.controller
  Reach-IsGuarded {cache_limit} {process_limit} start = new-IsGuarded cache_limit process_limit
  Reach-IsGuarded (next reached step) = Step-IsGuarded step (Reach-IsGuarded reached)

  -- A task writes only to a file that exists, as long as no other thread releases the file while a
  -- handler runs: with `seekable` and without caching, in every state that a session of calls,
  -- completed reads and handlers reaches, each of them as one step, when the thread runs the handler
  -- that was posted first, whatever streams its tasks return, `createCommand` finds the file of every
  -- task that the handler starts, although the task holds only the file's address and files have been
  -- released since it was posted.
  pub Reach-StartsSafely :
      {cache_limit process_limit : ℕ} {s : Session} (answers : ℕ → Answers) (env : Env)
      (h : Handler) (rest : List Handler) (t : ReadLoop)
      → Reach cache_limit process_limit s
      → ((cache : ℕ) → env.alive cache ≡ alive s.controller cache)
      → s.controller.read_loop.posted ≡ h ∷ rest
      → ReadLoop.handle env h (record s.controller.read_loop { posted = rest }) ≡ some t
      → StartsSafely answers
          (with_loop s.controller t)
          (drop (length s.controller.read_loop.started) t.started)
  Reach-StartsSafely {s = s} answers env h rest t reached looks posted ran =
      handle-StartsSafely answers env s.controller h rest t looks (Reach-IsGuarded reached) posted
        ran
