-- ===== src/Controller/Seekable/Calls.antt =====
-- Controller.cpp with `seekable` and without caching: `preload`, `read`, `release` and completed reads
-- keep the bindings of tasks.
use pipefs.Common.{
  ℕ, ◌+◌, ◌≤◌, ◌≡◌, refl, sym, ap, ◌∙◌, subst, ◌⊎◌, inl, inr, true, false, Bool, Bool-cases, Option,
  none, some, Option-cases, List, [], ◌∷◌, ◌++◌, arith, ◌==◌, ==_iff, update, Bytes,
}
use pipefs.Common.Int.{ℤ, pos, negsuc, is_negative}
use pipefs.SystemError.{checked_system_call}
use pipefs.SpawnCommand.{FileData}
use pipefs.Caches.{CacheData}
use pipefs.Caches.Sorting.{Sorter}
use pipefs.ReadLoop.{ReadLoop, QueueData, Handler, do_add_or_queue, do_remove, read_finished}
use pipefs.ReadLoop
use pipefs.Controller.{Controller, World, preload}
use pipefs.Controller.Access.{read, read_direct, release}
use pipefs.Controller.Commands.{holds, in_posted, in_reading}
use pipefs.Controller.Seekable.Pending.{
  is_active, uses, posted_for, posted_for-append, in_posted-append, in_reading-append,
}
use pipefs.Controller.Seekable.Waiting.{AllWaiting, AllPosted-append}
use pipefs.Controller.Seekable.Guarded.{IsBound, IsGuarded}
use pipefs.Controller.Seekable.Frames.{
  Frames-IsGuarded, Frames-files, with_loop, with_loop-IsGuarded,
}

pub preload-same :
    (w : World) (c : Controller) (filename : Bytes)
    → c.use_cache ≡ false
    → (preload w c filename).0 ≡ c
unfolding preload
preload-same w c filename caching = rw caching refl

files-IsGuarded :
    (c : Controller) (files : ℕ → Option FileData)
    → ((cache n : ℕ) → holds cache (files n) ≡ true → holds cache (c.files n) ≡ true)
    → IsGuarded c
    → IsGuarded (record c { files = files })
files-IsGuarded c files h v =
    Frames-IsGuarded c (record c { files = files }) (Frames-files c c.held files h) v v.waiting
      (λ cache. omega arith)

sign-cases : (z : ℤ) → ((n : ℕ) × (z ≡ pos n)) ⊎ (is_negative z ≡ true)
sign-cases (pos n) = inl (n, refl)
sign-cases (negsuc n) = inr refl

-- A file's offset is moved.
abbrev with_offset : Controller → ℕ → FileData → ℕ → Controller
with_offset c address file offset = record c {
  files = update c.files address (some (record file { current_offset = offset }));
}

read_direct-files :
    (w : World) (c : Controller) (address : ℕ) (file : FileData) (offset : ℕ)
    → ((read_direct w c address file offset).0 ≡ c)
      ⊎ ((offset' : ℕ) × ((read_direct w c address file offset).0
            ≡ with_offset c address file offset'))
unfolding read_direct checked_system_call
read_direct-files w c address file offset = elim (Bool-cases (offset == file.current_offset)) [
  | inr elsewhere ↦ inl (rw elsewhere refl)
  | inl here ↦ elim (sign-cases w.read) [
    | inl (n, got) ↦ inr (file.current_offset + n, rw here (rw got refl))
    | inr bad ↦ inl (rw here (rw bad refl))
  ]
]

read-eq-read_direct :
    (w : World) (c : Controller) (address size offset : ℕ) (file : FileData)
    → c.files address ≡ some file
    → file.cache ≡ none
    → read w c address size offset ≡ read_direct w c address file offset
unfolding read
read-eq-read_direct w c address size offset file there uncached =
    rw (there, read) (rw uncached refl)

read-files :
    (w : World) (c : Controller) (address size offset : ℕ)
    → ((read w c address size offset).0 ≡ c)
      ⊎ ((file : FileData) × (offset' : ℕ) × ((c.files address ≡ some file)
            × ((read w c address size offset).0 ≡ with_offset c address file offset')))
unfolding read
read-files w c address size offset = elim (Option-cases (c.files address)) [
  | inl gone ↦ inl (rw (gone, read) refl)
  | inr (file, there) ↦
      let direct = read-eq-read_direct w c address size offset file there in
      elim (Option-cases file.cache) [
        | inr (cache, its) ↦ inl (rw (there, read) (rw its refl))
        | inl none_left ↦ elim (read_direct-files w c address file offset) [
          | inl same ↦ inl (ap (λ r. r.0) (direct none_left) ∙ same)
          | inr (offset', moved) ↦
              inr (file, offset', (there, ap (λ r. r.0) (direct none_left) ∙ moved))
        ]
      ]
]

release_seekable :
    (sorter : Sorter Bytes CacheData (λ d. d.last_accessed)) (w : World) (c : Controller)
    (filename : Bytes) (address : ℕ)
    → c.use_cache ≡ false
    → c.seekable ≡ true
    → ((release sorter w c filename address).0 ≡ c)
      ⊎ ((fd : ℤ) × ((release sorter w c filename address).0 ≡ record c {
        files = update c.files address none;
        read_loop = ReadLoop.remove c.read_loop fd;
      }))
unfolding release
release_seekable sorter w c filename address caching seeks = elim (Option-cases (c.files address)) [
  | inl gone ↦ inl (rw (gone, release) refl)
  | inr (file, there) ↦ inr (file.fd, rw (there, release) (rw (caching, seeks) refl))
]

remove-AllWaiting :
    (P : QueueData → Type 0) (s : ReadLoop) (fd : ℤ)
    → AllWaiting P s
    → AllWaiting P (ReadLoop.remove s fd)
unfolding ReadLoop.remove
remove-AllWaiting P s fd v = record {
  queued = v.queued;
  posted = AllPosted-append P s.posted (do_remove fd) v.posted tt;
}

remove-uses : (s : ReadLoop) (fd : ℤ) (cache : ℕ) → uses (ReadLoop.remove s fd) cache ≤ uses s cache
unfolding ReadLoop.remove uses is_active posted_for in_posted
remove-uses s fd cache = ground (
  arith,
  posted_for-append cache s.posted (do_remove fd ∷ []),
  in_posted-append cache s.posted (do_remove fd ∷ []),
)

-- A file is freed, and a removal is posted.
freed-IsGuarded :
    (c : Controller) (address : ℕ) (fd : ℤ)
    → IsGuarded c
    → IsGuarded (record c {
      files = update c.files address none;
      read_loop = ReadLoop.remove c.read_loop fd;
    })
freed-IsGuarded c address fd v =
    let freed = record c { files = update c.files address none } in
    let less = files-IsGuarded c freed.files (λ cache n held. ground arith) v in
    with_loop-IsGuarded freed (ReadLoop.remove c.read_loop fd) less
      (remove-AllWaiting (IsBound freed) c.read_loop fd less.waiting) (remove-uses c.read_loop fd)

pub release-IsGuarded :
    (sorter : Sorter Bytes CacheData (λ d. d.last_accessed)) (w : World) (c : Controller)
    (filename : Bytes) (address : ℕ)
    → IsGuarded c
    → IsGuarded (release sorter w c filename address).0
release-IsGuarded sorter w c filename address v =
    elim (release_seekable sorter w c filename address v.caching v.seeks) [
      | inl same ↦ subst IsGuarded (sym same) v
      | inr (fd, freed) ↦ subst IsGuarded (sym freed) (freed-IsGuarded c address fd v)
    ]

pub read-IsGuarded :
    (w : World) (c : Controller) (address size offset : ℕ)
    → IsGuarded c
    → IsGuarded (read w c address size offset).0
read-IsGuarded w c address size offset v = elim (read-files w c address size offset) [
  | inl same ↦ subst IsGuarded (sym same) v
  | inr (file, offset', (there, moved)) ↦
      subst IsGuarded (sym moved)
        (files-IsGuarded c _ (λ cache n held. ground (arith, there, ==_iff address n)) v)
]

-- A read under way completes.
pub completed-IsGuarded :
    (c : Controller) (before after : List (ℕ × ℕ)) (stream cache : ℕ) (failed : Bool)
    (bytes : Bytes)
    → c.read_loop.reading ≡ before ++ ((stream, cache) ∷ after)
    → IsGuarded c
    → IsGuarded (
        with_loop c (record c.read_loop {
          reading = before ++ after;
          posted = c.read_loop.posted ++ (read_finished stream cache failed bytes ∷ []);
        }))
unfolding uses is_active posted_for in_posted in_reading
completed-IsGuarded c before after stream cache failed bytes e v =
    let h = read_finished stream cache failed bytes in
    with_loop-IsGuarded c _ v
      (record {
        queued = v.waiting.queued;
        posted = AllPosted-append (IsBound c) c.read_loop.posted h v.waiting.posted tt;
      })
      (λ k. ground (
        arith,
        posted_for-append k c.read_loop.posted (h ∷ []),
        in_posted-append k c.read_loop.posted (h ∷ []),
        ap (in_reading k) e,
        in_reading-append k before ((stream, cache) ∷ after),
        in_reading-append k before after,
      ))
