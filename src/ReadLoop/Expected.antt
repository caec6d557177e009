-- ===== src/ReadLoop/Expected.antt =====
-- BasicReadLoop.hpp: the caches that are still to get their end, or have got it.
use pipefs.Common.{
  ℕ, ◌≡◌, refl, ap, inl, inr, Bool, true, false, ◌||◌, Bool-cases, none, some, Option-cases, List,
  [], ◌∷◌, ◌++◌, arith, ltb, ◌==◌, ==_iff, length,
}
use pipefs.Common.Dict.{Dict, lookup, insert, erase}
use pipefs.Common.Int.{ℤ, int_eq}
use pipefs.Cache.{write, finish}
use pipefs.ReadLoop.{
  ReadLoop, CacheData, QueueData, Handler, do_add_or_queue, do_remove, do_cancel, read_finished,
  Env, in_running, destroy, destroy_all, emplace, open_stream, start_reading, do_add, pump,
  erase_entry, remove, handle,
}

unfoldable pub in_queue : ℕ → List QueueData → Bool
in_queue cache [] = false
in_queue cache (task ∷ rest) = task.cache == cache || in_queue cache rest

abbrev adds : ℕ → Handler → Bool
adds cache (do_add_or_queue task) = task.cache == cache
adds cache _ = false

unfoldable pub in_posted : ℕ → List Handler → Bool
in_posted cache [] = false
in_posted cache (h ∷ posted) = adds cache h || in_posted cache posted

-- The cache is finished, a command for it runs, or a task for it waits or is posted.
unfoldable pub is_expected : ReadLoop → ℕ → Bool
unfolding in_running in_queue in_posted
is_expected s cache =
    in_running cache s.caches
    || in_queue cache s.queue
    || in_posted cache s.posted
    || (s.heap cache).finished

in_queue-append :
    (cache : ℕ) (queue queue' : List QueueData)
    → in_queue cache (queue ++ queue') ≡ (in_queue cache queue || in_queue cache queue')
unfolding in_queue
in_queue-append cache [] queue' = refl
in_queue-append cache (_ ∷ queue) queue' = ground (arith, in_queue-append cache queue queue')

pub in_posted-append :
    (cache : ℕ) (posted posted' : List Handler)
    → in_posted cache (posted ++ posted') ≡ (in_posted cache posted || in_posted cache posted')
unfolding in_posted
in_posted-append cache [] posted' = refl
in_posted-append cache (h ∷ posted) posted' = ground (arith, in_posted-append cache posted posted')

insert-in_running :
    (cache : ℕ) (fd : ℤ) (entry : CacheData) (d : Dict ℤ CacheData)
    → lookup fd d ≡ none
    → in_running cache (insert fd entry d) ≡ (entry.cache == cache || in_running cache d)
unfolding in_running insert lookup
insert-in_running cache fd entry [] h = refl
insert-in_running cache fd entry (_ ∷ d) h = ground (arith, insert-in_running cache fd entry d)

erase-in_running :
    (cache : ℕ) (fd : ℤ) (entry : CacheData) (d : Dict ℤ CacheData)
    → lookup fd d ≡ some entry
    → in_running cache d ≡ (entry.cache == cache || in_running cache (erase fd d))
unfolding in_running erase lookup
erase-in_running cache fd entry [] h = absurd (ground arith)
erase-in_running cache fd entry (_ ∷ d) h = ground (arith, erase-in_running cache fd entry d)

destroy_all-is_expected :
    (cache : ℕ) (entries : Dict ℤ CacheData) (s : ReadLoop)
    → (in_running cache entries || is_expected (record s { caches = [] }) cache) ≡ true
    → is_expected (record (destroy_all entries s) { caches = [] }) cache ≡ true
unfolding destroy_all destroy is_expected in_running finish
destroy_all-is_expected cache [] s h = ground arith
destroy_all-is_expected cache ((_, entry) ∷ rest) s h =
    destroy_all-is_expected cache rest (destroy entry s) (ground (arith, ==_iff entry.cache cache))

module _ (env : Env) (cache : ℕ) (alive : env.alive cache ≡ true) where
  -- A task that is started puts its command into the map, or its cache is finished.
  do_add-is_expected :
      (task : QueueData) (s t : ReadLoop)
      → do_add env task s ≡ some t
      → (task.cache == cache || is_expected s cache) ≡ true
      → (t.queue ≡ s.queue) × (is_expected t cache ≡ true)
  unfolding do_add emplace open_stream start_reading destroy is_expected finish
  do_add-is_expected task s t h expected = elim (Option-cases (env.descriptor task.read_starter)) [
    | inl bad ↦ ground (arith, ==_iff task.cache cache)
    | inr (fd, good) ↦
        let entry : CacheData = record { cache = task.cache; stream = s.next_stream } in
        ground (arith, ==_iff task.cache cache, insert-in_running cache fd entry s.caches)
  ]

  pump-is_expected :
      (queue : List QueueData) (s t : ReadLoop)
      → pump env queue s ≡ some t
      → (in_queue cache queue || is_expected (record s { queue = [] }) cache) ≡ true
      → is_expected t cache ≡ true
  unfolding pump is_expected in_queue
  pump-is_expected [] s t h expected = ground arith
  pump-is_expected (task ∷ rest) s t h expected =
      elim (Bool-cases (ltb (length s.caches) s.process_limit)) [
        | inr full ↦ ground arith
        | inl room ↦ elim (Option-cases (do_add env task (record s { queue = rest }))) [
          | inl bad ↦ absurd (ground arith)
          | inr (u, good) ↦
              let (same, more) =
                do_add-is_expected task (record s { queue = rest }) u good (ground arith) in
              pump-is_expected rest u t (ground arith) (ground (arith, ap (in_queue cache) same))
        ]
      ]

  erase_entry-is_expected :
      (fd : ℤ) (s : ReadLoop)
      → is_expected s cache ≡ true
      → ((erase_entry fd s).queue ≡ s.queue) × (is_expected (erase_entry fd s) cache ≡ true)
  unfolding erase_entry destroy is_expected finish
  erase_entry-is_expected fd s expected = elim (Option-cases (lookup fd s.caches)) [
    | inl absent ↦ (ground arith, ground arith)
    | inr (entry, there) ↦
        (ground arith, ground (arith, erase-in_running cache fd entry s.caches there))
  ]

  pub handle-is_expected :
      (h : Handler) (rest : List Handler) (s t : ReadLoop)
      → s.posted ≡ h ∷ rest
      → handle env h (record s { posted = rest }) ≡ some t
      → is_expected s cache ≡ true
      → is_expected t cache ≡ true
  unfolding handle is_expected in_posted start_reading remove write
  handle-is_expected (do_add_or_queue task) rest s t p e expected =
      let s' = record s { posted = rest } in
      elim (Bool-cases (s.process_limit == 0 || ltb (length s.caches) s.process_limit)) [
        | inl room ↦ (do_add-is_expected task s' t (ground arith) (ground arith)).1
        | inr full ↦ ground (arith, in_queue-append cache s.queue (task ∷ []))
      ]
  handle-is_expected (do_remove fd) rest s t p e expected =
      let s' = record s { posted = rest } in
      let (same, more) = erase_entry-is_expected fd s' (ground arith) in
      pump-is_expected s.queue (erase_entry fd s') t (ground arith)
        (ground (arith, ap (in_queue cache) same))
  handle-is_expected do_cancel rest s t p e expected =
      let s' = record s { posted = rest } in
      ground (arith, destroy_all-is_expected cache s.caches s')
  handle-is_expected (read_finished stream cache' failed bytes) rest s t p e expected =
      ground (arith, in_posted-append cache rest (do_remove (s.handles stream) ∷ []))

-- Each cache that still exists and is expected before is expected after.
abbrev pub Keeps : Env → ReadLoop → ReadLoop → Type 0
Keeps env s t =
    (cache : ℕ) → env.alive cache ≡ true → is_expected s cache ≡ true → is_expected t cache ≡ true

pub read-Keeps :
    (env : Env) (s : ReadLoop) (stream cache' : ℕ) (after : List (ℕ × ℕ))
    → Keeps env s (record s {
      reading = after;
      posted = s.posted ++ (read_finished stream cache' true [] ∷ []);
    })
unfolding is_expected in_posted
read-Keeps env s stream cache' after cache alive expected =
    ground (arith, in_posted-append cache s.posted (read_finished stream cache' true [] ∷ []))
