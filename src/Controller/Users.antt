-- ===== src/Controller/Users.antt =====
-- Controller.cpp: with caching, every open file counts as a user of the cache of its name.
use pipefs.Common.{
  ℕ, zero, suc, ◌+◌, ◌-◌, ◌^◌, ◌≤◌, ◌<◌, ◌≡◌, refl, sym, ap, ◌∙◌, subst, inl, inr, true, Bool-cases,
  Option, none, some, ◌==◌, arith, if◌then◌else◌, update, Bytes, bytes_beq, bytes_beq_iff, bytes_eq,
}
use pipefs.Common.Dict.{NodupKeys}
use pipefs.SpawnCommand.{FileData}
use pipefs.Caches.{get_if_present, get}
use pipefs.Caches.Users.{users, get-users, get-NodupKeys, get-get_if_present}
use pipefs.Controller.{Controller, World}
use pipefs.Controller.Session.{Session, opened_as}

pub opened_as-update_above :
    (name : Bytes) (n a : ℕ) (names : ℕ → Option Bytes) (v : Option Bytes)
    → n ≤ a
    → opened_as name n (update names a v) ≡ opened_as name n names
unfolding opened_as
opened_as-update_above name zero a names v h = refl
opened_as-update_above name (suc n) a names v h =
    ground (arith, opened_as-update_above name n a names v (omega arith))

-- A file that is released was counted under its name.
pub opened_as-update-none :
    (name key : Bytes) (n a : ℕ) (names : ℕ → Option Bytes)
    → a < n
    → names a ≡ some key
    → opened_as name n (update names a none) + (if bytes_beq key name then 1 else 0)
      ≡ opened_as name n names
unfolding opened_as
opened_as-update-none name key zero a names h e = absurd (omega arith)
opened_as-update-none name key (suc n) a names h e = elim (Bool-cases (a == n)) [
  | inl last ↦ ground (arith, opened_as-update_above name n a names none (ground arith))
  | inr before ↦ ground (arith, opened_as-update-none name key n a names (ground arith) e)
]

pub opened_as-positive :
    (name : Bytes) (n a : ℕ) (names : ℕ → Option Bytes)
    → a < n
    → names a ≡ some name
    → 0 < opened_as name n names
opened_as-positive name n a names h e =
    ground (arith, opened_as-update-none name name n a names h e, bytes_beq_iff name name)

-- With caching, a file that is open has the cache that the map has under its name, and no more files
-- are open by a name than the name has users.
pub record IsServed (s : Session) : Type 0 where
  pub caching : s.controller.use_cache ≡ true
  pub unique : NodupKeys s.controller.caches
  pub counted :
      (name : Bytes)
      → opened_as name s.controller.next_file s.names ≤ users s.controller.caches name
  pub above : (a : ℕ) → s.controller.next_file ≤ a → s.names a ≡ none
  pub served :
      (a : ℕ) (name : Bytes)
      → s.names a ≡ some name
      → (file : FileData) × (s.controller.files a ≡ some file)
        × (cache : ℕ) × (file.cache ≡ some cache)
        × (get_if_present s.controller.caches name ≡ some cache)

pub open-used :
    {c : Controller} {names : ℕ → Option Bytes} (a : ℕ) (name : Bytes)
    → IsServed (record { controller = c; names = names })
    → names a ≡ some name
    → (a < c.next_file) × (0 < users c.caches name)
open-used {c} {names} a name v e =
    let below : a < c.next_file = ground (arith, v.above a) in
    (below, omega (arith, v.counted name, opened_as-positive name c.next_file a names below e))

-- What an operation that leaves the users alone may do.
pub record Keeps (c c' : Controller) : Type 0 where
  pub same_caches : c'.caches ≡ c.caches
  pub same_mode : c'.use_cache ≡ c.use_cache
  pub same_next : c'.next_file ≡ c.next_file
  pub same_files :
      (a : ℕ) (file : FileData)
      → c.files a ≡ some file
      → (file' : FileData) × (c'.files a ≡ some file') × (file'.cache ≡ file.cache)

-- Where only other fields change.
pub Keeps-fields :
    {c c' : Controller}
    → c'.caches ≡ c.caches
    → c'.use_cache ≡ c.use_cache
    → c'.next_file ≡ c.next_file
    → c'.files ≡ c.files
    → Keeps c c'
Keeps-fields {c} {c'} caches mode next files = record {
  same_caches = caches;
  same_mode = mode;
  same_next = next;
  same_files = λ a file e. (file, ap (λ f. f a) files ∙ e, refl);
}

pub Keeps-IsServed :
    {c c' : Controller} {names : ℕ → Option Bytes}
    → Keeps c c'
    → IsServed (record { controller = c; names = names })
    → IsServed (record { controller = c'; names = names })
Keeps-IsServed {c} {c'} {names} k v = record {
  caching = k.same_mode ∙ v.caching;
  unique = subst NodupKeys (sym k.same_caches) v.unique;
  counted = λ name. rw (k.same_caches, k.same_next) (v.counted name);
  above = λ a h. v.above a (rw (← k.same_next) h);
  served = λ a name e.
      let (file, there, cache, its, present) = v.served a name e in
      let (file', there', same) = k.same_files a file there in
      (file', there', cache, same ∙ its, rw k.same_caches present);
}

-- The controller after `get` by a name.
abbrev pub gotten : World → Controller → Bytes → Controller
gotten w c filename = record c { caches = (get c.caches filename w.now c.next_cache).0 }

pub gotten-IsServed :
    (w : World) (c : Controller) (filename : Bytes) (names : ℕ → Option Bytes)
    → users c.caches filename < 2 ^ 32 - 1
    → IsServed (record { controller = c; names = names })
    → IsServed (record { controller = gotten w c filename; names = names })
gotten-IsServed w c filename names room v = record {
  caching = v.caching;
  unique = get-NodupKeys c.caches filename w.now c.next_cache v.unique;
  counted = λ name.
      ground (arith, v.counted name, get-users c.caches filename w.now c.next_cache name room);
  above = v.above;
  served = λ a name e.
      let (file, there, cache, its, present) = v.served a name e in
      (
        file,
        there,
        cache,
        its,
        get-get_if_present c.caches filename w.now c.next_cache name (open-used a name v e).1
            ∙ present,
      );
}
