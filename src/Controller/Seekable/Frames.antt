-- ===== src/Controller/Seekable/Frames.antt =====
-- Controller.cpp with `seekable` and without caching: what keeps the bindings of tasks.
use pipefs.Common.{
  ℕ, ◌≤◌, ◌<◌, ◌≡◌, refl, ap, ◌∙◌, inl, inr, true, Bool-cases, Option, List, All-map, arith,
}
use pipefs.Common.Int.{ℤ}
use pipefs.SpawnCommand.{FileData}
use pipefs.ReadLoop.{ReadLoop, QueueData, Handler, do_add_or_queue, do_remove, read_finished}
use pipefs.ReadLoop
use pipefs.Controller.{Controller}
use pipefs.Controller.Commands.{holds}
use pipefs.Controller.Seekable.Pending.{uses}
use pipefs.Controller.Seekable.Waiting.{AllWaiting, OfHandler}
use pipefs.Controller.Seekable.Guarded.{IsBound, IsGuarded}

-- What does not touch the bound tasks, and gives no known cache to a file.
pub record Extends (c c' : Controller) : Type 0 where
  pub same_tasks : (n : ℕ) → n < c.next_task → c'.tasks n ≡ c.tasks n
  pub more_tasks : c.next_task ≤ c'.next_task
  pub more_caches : c.next_cache ≤ c'.next_cache
  pub same_files :
      (cache n : ℕ)
      → cache < c.next_cache
      → holds cache (c'.files n) ≡ true
      → holds cache (c.files n) ≡ true

Extends-IsBound :
    {c c' : Controller} → Extends c c' → (task : QueueData) → IsBound c task → IsBound c' task
Extends-IsBound x task b = record {
  address = b.address;
  bound = ap (λ t. t.file) (x.same_tasks task.read_starter b.known) ∙ b.bound;
  known = omega (arith, b.known, x.more_tasks);
  made = omega (arith, b.made, x.more_caches);
  only = λ n h. b.only n (x.same_files task.cache n b.made h);
}

Extends-OfHandler :
    {c c' : Controller}
    → Extends c c'
    → (h : Handler) → OfHandler (IsBound c) h
    → OfHandler (IsBound c') h
Extends-OfHandler x (do_add_or_queue task) b = Extends-IsBound x task b
Extends-OfHandler x (do_remove _) b = tt
Extends-OfHandler x ReadLoop.do_cancel b = tt
Extends-OfHandler x (read_finished _ _ _ _) b = tt

pub Extends-AllWaiting :
    {c c' : Controller} (s : ReadLoop)
    → Extends c c'
    → AllWaiting (IsBound c) s
    → AllWaiting (IsBound c') s
Extends-AllWaiting s x v = record {
  queued = All-map (Extends-IsBound x) s.queue v.queued;
  posted = All-map (Extends-OfHandler x) s.posted v.posted;
}

-- The members that only the constructor and the read loop's calls set, and no new holder of a cache.
pub record Frames (c c' : Controller) : Type 0 where
  pub same_mode : (c'.use_cache ≡ c.use_cache) × (c'.seekable ≡ c.seekable)
  pub same_caches : c'.caches ≡ c.caches
  pub same_tasks : c'.tasks ≡ c.tasks
  pub same_next : (c'.next_task ≡ c.next_task) × (c'.next_cache ≡ c.next_cache)
  pub holders : (cache n : ℕ) → holds cache (c'.files n) ≡ true → holds cache (c.files n) ≡ true

Frames-Extends : {c c' : Controller} → Frames c c' → Extends c c'
Frames-Extends f = record {
  same_tasks = λ n _. ap (λ t. t n) f.same_tasks;
  more_tasks = omega (arith, f.same_next.0);
  more_caches = omega (arith, f.same_next.1);
  same_files = λ cache n _. f.holders cache n;
}

-- The read loop may change as a handler or a completed read changes it.
pub Frames-IsGuarded :
    (c c' : Controller)
    → Frames c c'
    → IsGuarded c
    → AllWaiting (IsBound c) c'.read_loop
    → ((cache : ℕ) → uses c'.read_loop cache ≤ uses c.read_loop cache)
    → IsGuarded c'
Frames-IsGuarded c c' f v waiting fewer = record {
  caching = f.same_mode.0 ∙ v.caching;
  seeks = f.same_mode.1 ∙ v.seeks;
  unnamed = f.same_caches ∙ v.unnamed;
  waiting = Extends-AllWaiting c'.read_loop (Frames-Extends f) waiting;
  one_use = λ cache. omega (arith, v.one_use cache, fewer cache);
  fresh = λ cache new.
      let old = v.fresh cache (omega (arith, f.same_next.1, new)) in
      (
        omega (arith, old.0, fewer cache),
        λ n. elim (Bool-cases (holds cache (c'.files n))) [
          | inl held ↦ absurd (ground (arith, f.holders cache n held, old.1 n))
          | inr free ↦ free
        ],
      );
}

pub Frames-refl : (c : Controller) → Frames c c
Frames-refl c = record {
  same_mode = (refl, refl);
  same_caches = refl;
  same_tasks = refl;
  same_next = (refl, refl);
  holders = λ cache n h. h;
}

pub Frames-trans : {a b c : Controller} → Frames a b → Frames b c → Frames a c
Frames-trans f g = record {
  same_mode = (g.same_mode.0 ∙ f.same_mode.0, g.same_mode.1 ∙ f.same_mode.1);
  same_caches = g.same_caches ∙ f.same_caches;
  same_tasks = g.same_tasks ∙ f.same_tasks;
  same_next = (g.same_next.0 ∙ f.same_next.0, g.same_next.1 ∙ f.same_next.1);
  holders = λ cache n h. f.holders cache n (g.holders cache n h);
}

-- Only the descriptors, and the files, each with the cache that it has or none.
pub Frames-files :
    (c : Controller) (held : List ℤ) (files : ℕ → Option FileData)
    → ((cache n : ℕ) → holds cache (files n) ≡ true → holds cache (c.files n) ≡ true)
    → Frames c (record c { held = held; files = files })
Frames-files c held files h = record {
  same_mode = (refl, refl);
  same_caches = refl;
  same_tasks = refl;
  same_next = (refl, refl);
  holders = h;
}

-- Only the read loop.
abbrev pub with_loop : Controller → ReadLoop → Controller
with_loop c s = record c { read_loop = s }

Frames-with_loop : (c : Controller) (s : ReadLoop) → Frames c (with_loop c s)
Frames-with_loop c s = record {
  same_mode = (refl, refl);
  same_caches = refl;
  same_tasks = refl;
  same_next = (refl, refl);
  holders = λ cache n h. h;
}

pub with_loop-IsGuarded :
    (c : Controller) (s : ReadLoop)
    → IsGuarded c
    → AllWaiting (IsBound c) s
    → ((cache : ℕ) → uses s cache ≤ uses c.read_loop cache)
    → IsGuarded (with_loop c s)
with_loop-IsGuarded c s v waiting fewer =
    Frames-IsGuarded c (with_loop c s) (Frames-with_loop c s) v waiting fewer
