-- ===== src/Controller/Seekable/Opens.antt =====
-- Controller.cpp with `seekable` and without caching: `open` keeps the bindings of tasks.
use pipefs.Common.{
  ℕ, suc, ◌+◌, ◌≡◌, refl, sym, subst, ◌⊎◌, inl, inr, true, false, Bool-cases, some, [], ◌∷◌, arith,
  ◌==◌, ==_iff, if◌then◌else◌, Bytes,
}
use pipefs.Common.Int.{is_negative}
use pipefs.SystemError.{checked_system_call}
use pipefs.ReadLoop.{ReadLoop, QueueData, Handler, do_add_or_queue, do_remove, read_finished}
use pipefs.ReadLoop
use pipefs.Controller.{Controller, FileInfo, World, add_task, keep_file, open_seekable, open_file}
use pipefs.Controller.Commands.{in_posted}
use pipefs.Controller.Opening.{with_task, with_file, with_cache}
use pipefs.Controller.Seekable.Pending.{
  is_active, uses, posted_for, posted_for-append, in_posted-append,
}
use pipefs.Controller.Seekable.Waiting.{AllPosted-append}
use pipefs.Controller.Seekable.Guarded.{IsBound, IsGuarded}
use pipefs.Controller.Seekable.Frames.{Extends, Extends-AllWaiting}

-- The controller after a successful `open`.
abbrev opened : World → Controller → FileInfo → Controller
opened w c fi =
    with_file (with_task w c (some c.next_file) fi.flags c.next_cache) (with_cache c.next_cache)

open_file_seekable :
    (w : World) (c : Controller) (filename : Bytes) (fi : FileInfo)
    → c.use_cache ≡ false
    → c.seekable ≡ true
    → ((open_file w c filename fi).0 ≡ opened w c fi)
      ⊎ ((open_file w c filename fi).0 ≡ record c { next_cache = suc c.next_cache })
unfolding open_file open_seekable add_task keep_file checked_system_call
open_file_seekable w c filename fi caching seeks = elim (Bool-cases (is_negative w.dup)) [
  | inl bad ↦ inr (rw (caching, seeks, bad) refl)
  | inr good ↦ inl (rw (caching, seeks, good) refl)
]

opened-Extends : (w : World) (c : Controller) (fi : FileInfo) → Extends c (opened w c fi)
opened-Extends w c fi = record {
  same_tasks = λ n h. ground arith;
  more_tasks = omega arith;
  more_caches = omega arith;
  same_files = λ cache n h held. ground arith;
}

opened-uses :
    (w : World) (c : Controller) (fi : FileInfo) (cache : ℕ)
    → uses (opened w c fi).read_loop cache
      ≡ uses c.read_loop cache + (if c.next_cache == cache then 1 else 0)
unfolding uses is_active ReadLoop.add posted_for in_posted
opened-uses w c fi cache =
    let task : QueueData = record { read_starter = c.next_task; cache = c.next_cache } in
    ground (
      arith,
      posted_for-append cache c.read_loop.posted (do_add_or_queue task ∷ []),
      in_posted-append cache c.read_loop.posted (do_add_or_queue task ∷ []),
    )

opened-IsBound :
    (w : World) (c : Controller) (fi : FileInfo)
    → IsGuarded c
    → IsBound (opened w c fi) (record { read_starter = c.next_task; cache = c.next_cache })
opened-IsBound w c fi v = record {
  address = c.next_file;
  bound = ground arith;
  known = omega arith;
  made = omega arith;
  only = λ n held. ground (arith, (v.fresh c.next_cache (omega arith)).1 n);
}

opened-IsGuarded :
    (w : World) (c : Controller) (fi : FileInfo) → IsGuarded c → IsGuarded (opened w c fi)
unfolding ReadLoop.add
opened-IsGuarded w c fi v =
    let old = Extends-AllWaiting c.read_loop (opened-Extends w c fi) v.waiting in
    record {
      caching = v.caching;
      seeks = v.seeks;
      unnamed = v.unnamed;
      waiting = record {
        queued = old.queued;
        posted =
            AllPosted-append (IsBound (opened w c fi)) c.read_loop.posted
              (do_add_or_queue (record { read_starter = c.next_task; cache = c.next_cache }))
              old.posted (opened-IsBound w c fi v);
      };
      one_use = λ cache. ground (
        arith,
        opened-uses w c fi cache,
        v.one_use cache,
        v.fresh cache,
        ==_iff c.next_cache cache,
      );
      fresh = λ cache new. (
        ground (arith, opened-uses w c fi cache, v.fresh cache (omega (arith, new))),
        λ n. ground (arith, (v.fresh cache (omega (arith, new))).1 n),
      );
    }

-- A failed `open` has made a cache.
failed-IsGuarded :
    (c : Controller) → IsGuarded c → IsGuarded (record c { next_cache = suc c.next_cache })
failed-IsGuarded c v = record {
  caching = v.caching;
  seeks = v.seeks;
  unnamed = v.unnamed;
  waiting = Extends-AllWaiting c.read_loop extends v.waiting;
  one_use = v.one_use;
  fresh = λ cache new. v.fresh cache (omega (arith, new));
}
  where
    extends : Extends c (record c { next_cache = suc c.next_cache })
    extends = record {
      same_tasks = λ n h. refl;
      more_tasks = omega arith;
      more_caches = omega arith;
      same_files = λ cache n h held. held;
    }

pub open_file-IsGuarded :
    (w : World) (c : Controller) (filename : Bytes) (fi : FileInfo)
    → IsGuarded c
    → IsGuarded (open_file w c filename fi).0
open_file-IsGuarded w c filename fi v =
    elim (open_file_seekable w c filename fi v.caching v.seeks) [
      | inl e ↦ subst IsGuarded (sym e) (opened-IsGuarded w c fi v)
      | inr e ↦ subst IsGuarded (sym e) (failed-IsGuarded c v)
    ]
