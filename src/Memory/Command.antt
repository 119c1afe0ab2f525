-- ===== src/Memory/Command.antt =====
-- The calls that change the repository in memory, and histories of them.
use sdkwork_sandbox.Base.{ℕ, List, [], ◌∷◌, Text}
use sdkwork_sandbox.Session.Model.{Session}
use sdkwork_sandbox.Session.Lease.{SessionLease}
use sdkwork_sandbox.Memory.Defs.{RepositoryState, insert_session}
use sdkwork_sandbox.Memory.Leases.{Clock, acquire_lease, renew_lease, release_lease}
use sdkwork_sandbox.Memory.Saves.{save_session}

pub data Command : Type 0 where
  inserts : Session → Command
  saves : Session → ℕ → SessionLease → Command
  acquires : Text → Text → Text → ℕ → Command
  renews : SessionLease → ℕ → Command
  releases : SessionLease → Command

-- One call, at a time.
unfoldable pub step : RepositoryState → Clock × Command → RepositoryState
unfolding insert_session save_session acquire_lease renew_lease release_lease
step m (now, inserts s) = (insert_session s m).0
step m (now, saves s expected lease) = (save_session now.instant s expected lease m).0
step m (now, acquires tenant session owner duration) =
    (acquire_lease now tenant session owner duration m).0
step m (now, renews lease duration) = (renew_lease now lease duration m).0
step m (now, releases lease) = (release_lease lease m).0

unfoldable pub run : List (Clock × Command) → RepositoryState → RepositoryState
unfolding step
run [] m = m
run (c ∷ cs) m = run cs (step m c)
