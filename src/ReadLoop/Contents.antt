-- ===== src/ReadLoop/Contents.antt =====
-- BasicReadLoop.hpp: what the handlers do to the contents of the caches.
use mathlib.Core.List.{append-nil}
use pipefs.Common.{
  ◌≢◌, ◌<◌, ℕ, ◌≡◌, refl, sym, ◌∙◌, ap, ◌⊎◌, inl, inr, Bool, true, false, not, ◌&&◌, ◌||◌,
  Bool-cases, some, Option-cases, List, [], ◌∷◌, ◌++◌, arith, ltb, ◌==◌, if◌then◌else◌, length,
  take_of_length-le, Bytes,
}
use pipefs.Common.Dict.{Dict, lookup}
use pipefs.Common.Int.{ℤ, int_eq}
use pipefs.Cache.{Cache, write, finish}
use pipefs.Cache.Reading.{write-append}
use pipefs.ReadLoop.{
  closed, ReadLoop, CacheData, QueueData, Handler, do_add_or_queue, do_remove, do_cancel,
  read_finished, Env, is_open, destroy, do_add, pump, erase_entry, destroy_all, handle, remove,
}
use pipefs.ReadLoop.Step.{Opens}
use pipefs.ReadLoop.Owner.{IsOwned, erase_entry-IsOwned}
use pipefs.ReadLoop.Ownership.{pump-IsOwned, pump-closed}

write_all :
    (c : Cache) (bytes : Bytes)
    → write c bytes (length bytes) ≡ record c { contents = c.contents ++ bytes }
write_all c bytes =
    write-append c bytes (length bytes) (omega arith)
    ∙ ap (λ b. record c { contents = c.contents ++ b })
        (take_of_length-le (length bytes) bytes (omega arith))

-- A cache has the same contents and has not become unfinished.
abbrev Ends : Cache → Cache → Type 0
Ends c d = (d.contents ≡ c.contents) × ((d.finished ≡ true) ⊎ (d.finished ≡ c.finished))

destroy-Ends :
    (entry : CacheData) (s : ReadLoop) (c : ℕ) → Ends (s.heap c) ((destroy entry s).heap c)
unfolding destroy finish
destroy-Ends entry s c = ground arith

Ends-trans : (a b c : Cache) → Ends a b → Ends b c → Ends a c
Ends-trans a b c p q = ground arith

destroy_all-Ends :
    (entries : Dict ℤ CacheData) (s : ReadLoop) (c : ℕ)
    → Ends (s.heap c) ((destroy_all entries s).heap c)
unfolding destroy_all
destroy_all-Ends [] s c = (refl, inr refl)
destroy_all-Ends ((_, entry) ∷ rest) s c =
    Ends-trans _ _ _ (destroy-Ends entry s c) (destroy_all-Ends rest (destroy entry s) c)

do_add-Ends :
    (env : Env) (task : QueueData) (s t : ReadLoop) (c : ℕ)
    → do_add env task s ≡ some t
    → Ends (s.heap c) (t.heap c)
unfolding do_add destroy finish
do_add-Ends env task s t c h = ground arith

pump-Ends :
    (env : Env) (queue : List QueueData) (s t : ReadLoop) (c : ℕ)
    → pump env queue s ≡ some t
    → Ends (s.heap c) (t.heap c)
unfolding pump
pump-Ends env [] s t c h = ground arith
pump-Ends env (task ∷ rest) s t c h = elim (Bool-cases (ltb (length s.caches) s.process_limit)) [
  | inr full ↦ ground arith
  | inl room ↦ elim (Option-cases (do_add env task (record s { queue = rest }))) [
    | inl bad ↦ absurd (ground arith)
    | inr (u, good) ↦
        Ends-trans _ _ _ (do_add-Ends env task (record s { queue = rest }) u c good)
          (pump-Ends env rest u t c (ground arith))
  ]
]

erase_entry-Ends : (fd : ℤ) (s : ReadLoop) (c : ℕ) → Ends (s.heap c) ((erase_entry fd s).heap c)
unfolding erase_entry destroy finish
erase_entry-Ends fd s c = ground arith

erase_entry-finishes :
    (fd : ℤ) (s : ReadLoop) (entry : CacheData)
    → lookup fd s.caches ≡ some entry
    → (((erase_entry fd s).heap entry.cache).finished ≡ true)
      × (((erase_entry fd s).heap entry.cache).contents ≡ (s.heap entry.cache).contents)
unfolding erase_entry destroy finish
erase_entry-finishes fd s entry e = ground arith

eq-nil_of_length : (bytes : Bytes) → ltb 0 (length bytes) ≡ false → bytes ≡ []
eq-nil_of_length [] h = refl
eq-nil_of_length (b ∷ bytes) h = absurd (ground arith)

-- The bytes that a handler brings to the cache at an address: those of a read of that cache that
-- has succeeded while its stream is still open.
unfoldable pub delivered : ReadLoop → Handler → ℕ → Bytes
delivered s (read_finished stream cache failed bytes) c =
    if cache == c && not failed && is_open s stream then bytes else []
delivered s (do_add_or_queue _) c = []
delivered s (do_remove _) c = []
delivered s do_cancel c = []

-- Each handler appends to each cache exactly what it delivers to it, and makes no finished cache
-- unfinished.
pub handle-contents :
    (env : Env) (h : Handler) (s t : ReadLoop) (c : ℕ)
    → handle env h s ≡ some t
    → ((t.heap c).contents ≡ (s.heap c).contents ++ delivered s h c)
      × ((s.heap c).finished ≡ true → (t.heap c).finished ≡ true)
unfolding handle delivered
handle-contents env (do_add_or_queue task) s t c e =
    let ends : Ends (s.heap c) (t.heap c) =
      elim (Bool-cases (s.process_limit == 0 || ltb (length s.caches) s.process_limit)) [
        | inl room ↦ do_add-Ends env task s t c (ground arith)
        | inr full ↦ ground arith
      ] in
    (ends.0 ∙ sym (append-nil (s.heap c).contents), ground arith)
handle-contents env (do_remove fd) s t c e =
    let ends = Ends-trans _ _ _ (erase_entry-Ends fd s c) (pump-Ends env s.queue _ t c e) in
    (ends.0 ∙ sym (append-nil (s.heap c).contents), ground arith)
handle-contents env do_cancel s t c e =
    let ends = destroy_all-Ends s.caches s c in
    (ground (arith, append-nil (s.heap c).contents), ground arith)
handle-contents env (read_finished stream cache failed bytes) s t c e =
    ground (
      arith,
      write_all (s.heap cache) bytes,
      append-nil (s.heap c).contents,
      eq-nil_of_length bytes,
    )

erase_entry-closes :
    (fd : ℤ) (s : ReadLoop) (entry : CacheData)
    → lookup fd s.caches ≡ some entry
    → ((erase_entry fd s).handles entry.stream ≡ closed)
      × ((erase_entry fd s).next_stream ≡ s.next_stream)
unfolding erase_entry destroy
erase_entry-closes fd s entry e = ground arith

-- The stream of an entry has been made.
stream_made :
    (fd : ℤ) (s : ReadLoop) (entry : CacheData)
    → IsOwned s
    → lookup fd s.caches ≡ some entry
    → entry.stream < s.next_stream
stream_made fd s entry v e = elim (Bool-cases (ltb entry.stream s.next_stream)) [
  | inl made ↦ ground arith
  | inr new ↦ absurd (ground (arith, v.fresh entry.stream, v.owns fd entry e))
]

-- An entry is removed for good: no entry that there is afterwards has its stream, which is closed.
removed :
    (env : Env) (fd : ℤ) (entry : CacheData) (s t : ReadLoop)
    → Opens env
    → IsOwned s
    → lookup fd s.caches ≡ some entry
    → pump env s.queue (erase_entry fd s) ≡ some t
    → (is_open t entry.stream ≡ false)
      × ((k : ℤ) (d : CacheData) → lookup k t.caches ≡ some d → d.stream ≢ entry.stream)
removed env fd entry s t opens v e h =
    let (shut, same) = erase_entry-closes fd s entry e in
    let made = stream_made fd s entry v e in
    let still =
      pump-closed env s.queue (erase_entry fd s) t entry.stream h (omega (arith, made, same))
        shut in
    let v' = pump-IsOwned env s.queue (erase_entry fd s) t opens (erase_entry-IsOwned s v fd) h in
    let gone : is_open t entry.stream ≡ false = ground arith in
    (gone, λ k d found mine. ground (arith, v'.owns k d found))

-- The end of a stream, or an error, leads to the removal of its entry: the handler posts a `remove`
-- of the stream's own handle and does nothing else; and when a `remove` of that handle runs while the
-- entry is in the map, the cache is finished with the contents that it had, the stream is closed, and
-- no entry of the map has it any more. The entries own their streams, as in every state that a
-- schedule reaches.
pub end_of_stream :
    (env env' : Env) (fd : ℤ) (entry : CacheData) (failed : Bool) (bytes : Bytes)
    (s t u v : ReadLoop)
    → Opens env'
    → IsOwned s
    → IsOwned u
    → lookup fd s.caches ≡ some entry
    → (failed ≡ true) ⊎ (bytes ≡ [])
    → handle env (read_finished entry.stream entry.cache failed bytes) s ≡ some t
    → lookup fd u.caches ≡ some entry
    → handle env' (do_remove fd) u ≡ some v
    → (t ≡ remove s fd)
      × ((v.heap entry.cache).finished ≡ true)
      × ((v.heap entry.cache).contents ≡ (u.heap entry.cache).contents)
      × (is_open v entry.stream ≡ false)
      × ((k : ℤ) (d : CacheData) → lookup k v.caches ≡ some d → d.stream ≢ entry.stream)
unfolding handle
end_of_stream env env' fd entry failed bytes s t u v opens owned owned' e over h e' h' =
    let (finished, contents) = erase_entry-finishes fd u entry e' in
    let rest = pump-Ends env' u.queue (erase_entry fd u) v entry.cache h' in
    let (shut, gone) = removed env' fd entry u v opens owned' e' h' in
    (ground (arith, owned.owns fd entry e, over), ground arith, ground arith, shut, gone)
