-- ===== src/IoThread.antt =====
-- src/controller/IOThread.cpp: the thread that runs the io_service, and the work that keeps it
-- running. The io_service of Boost is a parameter.
use pipefs.Common.{◌≡◌, Bool, true, false, Option, none, some, if◌then◌else◌, arith}

-- Whether there is a thread, and whether `work` is set.
pub record IoThread : Type 0 where
  pub working_thread : Bool
  pub work : Bool

abbrev pub new_thread : IoThread
new_thread = record { working_thread = false; work = false }

-- `ends`: whether `run` of the io_service returns once there is no work but what it still has to do.
-- `none`: `join` waits for ever.
unfoldable pub stop : Bool → IoThread → Option IoThread
stop ends t = if t.working_thread then if ends then some new_thread else none else some t

abbrev launches : Option IoThread → Option IoThread
launches none = none
launches (some t) = some (record { working_thread = true; work = true })

unfoldable pub start : Bool → IoThread → Option IoThread
unfolding stop
start ends t = launches (if t.working_thread then stop ends t else some t)

-- What is started can be stopped, twice too, and is as before then, if `run` returns.
pub start-stop :
    (t t' : IoThread)
    → start true new_thread ≡ some t
    → stop true t ≡ some t'
    → (t' ≡ new_thread) × (stop true t' ≡ some new_thread)
unfolding start stop
start-stop t t' started stopped = ground arith
