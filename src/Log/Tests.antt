-- ===== src/Log/Tests.antt =====
-- log.c: the theorem at a concrete input.
use mathlib.Core.List.{map}
use pipefs.Common.{◌≡◌, refl, some, [], ◌∷◌, ◌++◌, ◌-◌, take, Bytes, codes}
use pipefs.Log.{log_msg, max_log_size}
use pipefs.Log.Lines.{line, log_msg_lem}
use pipefs.Strtok.Pieces.{nonempty, pieces}

log_msg_lem_example :
    (added : Bytes) × (log_msg (codes "t") (codes "7f") (codes "\na\n\nb") (some (codes "x"))
      ≡ some (codes "x" ++ added))
    × (pieces 10 added
        ≡ map
            (line (codes "t") (codes "7f"))
            (nonempty (pieces 10 (take (max_log_size - 1) (codes "\na\n\nb"))))
          ++ ([] ∷ []))
log_msg_lem_example =
    log_msg_lem (codes "t") (codes "7f") (codes "\na\n\nb") (codes "x") (refl, tt)
      (refl, (refl, tt))
