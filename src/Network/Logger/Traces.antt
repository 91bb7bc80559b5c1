-- ===== src/Network/Logger/Traces.antt =====
-- What the speed log of a connection amounts to.
use understory.Base.{ℕ, ◌+◌, ◌≡◌, List, [], ◌∷◌, ◌++◌, arith}
use understory.Network.Queue.{push}
use understory.Network.Logger.{PayloadLogger, NetworkLoadSpeedTrace, commit_payload_speed}

pub bytes_logged : List NetworkLoadSpeedTrace → ℕ
bytes_logged [] = 0
bytes_logged (t ∷ ts) = t.bytes_exchanged + bytes_logged ts

-- The bytes that the speed log has counted.
unfoldable pub logged : PayloadLogger → ℕ
unfolding bytes_logged
logged l = bytes_logged l.speed_queue.items

bytes_logged-snoc :
    (ts : List NetworkLoadSpeedTrace) (t : NetworkLoadSpeedTrace)
    → bytes_logged (ts ++ t ∷ []) ≡ bytes_logged ts + t.bytes_exchanged
unfolding bytes_logged
bytes_logged-snoc [] t = omega arith
bytes_logged-snoc (u ∷ ts) t = omega (arith, bytes_logged-snoc ts t)

pub logged-commit_payload_speed :
    (now n : ℕ) (l : PayloadLogger) → logged (commit_payload_speed now n l) ≡ logged l + n
unfolding logged commit_payload_speed push
logged-commit_payload_speed now n l = bytes_logged-snoc l.speed_queue.items _
