-- ===== src/Connections/Link.antt =====
-- rpcmple_cpp/include/connectionmanager under rpcmple_cpp/include/rpcmple/messageManager.h: a connection over
-- a connected socket, as the manager sees it.
use rpcmple.Common.{ℕ, zero, suc, ◌<◌, ◌≡◌, refl, sym, ap, subst, ◌∙◌}
use rpcmple.Common.{
  List, [], ◌∷◌, ◌++◌, append_assoc, append-nil, length, drop, Option, none, some, Bool, true,
}
use rpcmple.Manager.{Connection, max_message}
use rpcmple.Manager.Inbox.{Script, script, write_script, read_script, take_chunk, join, always}
use rpcmple.Manager.Simulation.{IsSimulation, Reads}
use rpcmple.Connections.{Os, Socket, send_all, sent_some}
use native.Mathlib.Nat.{le_refl}
use rpcmple.Connections.Sending.{IsSend, IsWritten, send_all-IsWritten}

-- A connected socket whose peer stays: `send` never fails; `recv` gives the bytes that have arrived,
-- in portions of any size, and 0 when the peer has closed; and neither touches the other's stream.
pub record IsConnected {W : Type 0} (os : Os W) (s : ℕ) (stream : W → List ℕ)
    (coming : W → List (List ℕ)) : Type 0 where
  pub sends : IsSend (os.send (some s)) stream
  pub accepts : (bytes : List ℕ) (w w' : W) → os.send (some s) bytes w ≡ (w', none) → ⊥
  pub keeps_coming : (bytes : List ℕ) (w : W) → coming (os.send (some s) bytes w).0 ≡ coming w
  pub receives :
      (w : W) (chunk : List ℕ) (chunks : List (List ℕ))
      → coming w ≡ chunk ∷ chunks
      → (0 < length chunk)
        × ((os.receive (some s) max_message w).1 ≡ some chunk)
        × (coming (os.receive (some s) max_message w).0 ≡ chunks)
  pub ends :
      (w : W)
      → coming w ≡ []
      → ((os.receive (some s) max_message w).1 ≡ some [])
        × (coming (os.receive (some s) max_message w).0 ≡ [])
  pub keeps_stream : (w : W) → stream (os.receive (some s) max_message w).0 ≡ stream w
  pub stays : (w : W) → stream (os.close_socket (some s) w) ≡ stream w
  pub cleans : (w : W) → stream (os.cleanup w) ≡ stream w

-- What the methods of a connection make of the system's answers on the socket that it holds.
pub record IsOver {W X : Type 0} (os : Os W) (s : ℕ) (stream : W → List ℕ) (k : Connection (X × W))
    (socket_of : X → Socket) : Type 0 where
  pub writes :
      (x : X) (w w' : W) (bytes : List ℕ)
      → socket_of x ≡ some s
      → send_all (os.send (some s)) (length bytes) bytes w ≡ some (w', true)
      → k.write (x, w) bytes ≡ ((x, w'), true)
  pub reads_end :
      (x : X) (w : W)
      → socket_of x ≡ some s
      → (os.receive (some s) max_message w).1 ≡ some []
      → k.read (x, w) max_message ≡ ((x, (os.receive (some s) max_message w).0), none)
  pub reads_chunk :
      (x : X) (w : W) (chunk : List ℕ)
      → socket_of x ≡ some s
      → 0 < length chunk
      → (os.receive (some s) max_message w).1 ≡ some chunk
      → k.read (x, w) max_message ≡ ((x, (os.receive (some s) max_message w).0), some chunk)
  pub closes :
      (x : X) (w : W)
      → socket_of x ≡ some s
      → (socket_of (k.close (x, w)).0 ≡ none) × (stream (k.close (x, w)).1 ≡ stream w)

join-append : (xs : List (List ℕ)) (x : List ℕ) → join (xs ++ x ∷ []) ≡ join xs ++ x
join-append [] x = append-nil x
join-append (y ∷ xs) x = ap (◌++◌ y) (join-append xs x) ∙ sym (append_assoc y (join xs) x)

-- Behind what was sent before, the stream has the writes, one behind the other, and what is coming
-- is what is still to be read.
pub record Stands {W X : Type 0} (s : ℕ) (stream : W → List ℕ) (coming : W → List (List ℕ))
    (socket_of : X → Socket) (before : List ℕ) (x : X × W) (c : Script) : Type 0 where
  pub connected : socket_of x.0 ≡ some s
  pub to_come : coming x.1 ≡ c.inbox
  pub written : stream x.1 ≡ before ++ join c.outbox

-- The socket has been closed.
pub record Ended {W X : Type 0} (stream : W → List ℕ) (socket_of : X → Socket) (before : List ℕ)
    (x : X × W) (c : Script) : Type 0 where
  pub disconnected : socket_of x.0 ≡ none
  pub written : stream x.1 ≡ before ++ join c.outbox

module _ {W : Type 0} (os : Os W) (s : ℕ) (stream : W → List ℕ) (coming : W → List (List ℕ))
    (law : IsConnected os s stream coming) where
  -- A loop that has ended has succeeded, and leaves what is coming.
  abbrev Keeps : List (List ℕ) → Option (W × Bool) → Type 0
  Keeps chunks none = Unit {0}
  Keeps chunks (some (w', done)) = (done ≡ true) × (coming w' ≡ chunks)

  sent_some-Keeps :
      (bytes : List ℕ) (w : W) (r : W × Option ℕ) (next : List ℕ → W → Option (W × Bool))
      → os.send (some s) bytes w ≡ r
      → ((left : List ℕ) (w' : W) → Keeps (coming w') (next left w'))
      → Keeps (coming w) (sent_some (os.send (some s)) bytes r next)
  sent_some-Keeps bytes w (w', none) next e h = absurd (law.accepts bytes w w' e)
  sent_some-Keeps bytes w (w', some n) next e h =
      subst (λ (l : List (List ℕ)). Keeps l (next (drop n bytes) w'))
        (ap (λ (r : W × Option ℕ). coming r.0) (sym e) ∙ law.keeps_coming bytes w)
        (h (drop n bytes) w')

  send_all-Keeps :
      (fuel : ℕ) (bytes : List ℕ) (w : W)
      → Keeps (coming w) (send_all (os.send (some s)) fuel bytes w)
  unfolding send_all
  send_all-Keeps fuel [] w = (refl, refl)
  send_all-Keeps zero (b ∷ bytes) w = tt
  send_all-Keeps (suc fuel) (b ∷ bytes) w =
      sent_some-Keeps (b ∷ bytes) w (os.send (some s) (b ∷ bytes) w) _ refl (send_all-Keeps fuel)

  -- All of a write is sent.
  sends :
      (bytes : List ℕ) (w : W)
      → (w' : W) × (send_all (os.send (some s)) (length bytes) bytes w ≡ some (w', true))
        × (coming w' ≡ coming w)
        × (stream w' ≡ stream w ++ bytes)
  sends bytes w =
      let ((w', done), runs, is_written) =
        send_all-IsWritten (os.send (some s)) stream law.sends (length bytes) bytes w
          (le_refl (length bytes)) in
      let (succeeds, kept) =
        subst (Keeps (coming w)) runs (send_all-Keeps (length bytes) bytes w) in
      (
        w',
        runs ∙ ap (λ b. some (w', b)) succeeds,
        kept,
        subst (λ (b : Bool). IsWritten stream bytes w (w', b)) succeeds is_written,
      )

  module _ {X : Type 0} (k : Connection (X × W)) (socket_of : X → Socket)
      (methods : IsOver os s stream k socket_of) where
    abbrev At : List ℕ → X × W → Script → Type 0
    At = Stands s stream coming socket_of

    abbrev Writes : List ℕ → Script → List ℕ → (X × W) × Bool → Type 0
    Writes before c bytes r =
        At before r.0 (record c { outbox = c.outbox ++ bytes ∷ [] }) × (r.1 ≡ true)

    write-Stands :
        (before bytes : List ℕ) (x : X) (w : W) (c : Script)
        → At before (x, w) c
        → Writes before c bytes (k.write (x, w) bytes)
    write-Stands before bytes x w c h =
        let (w', runs, kept, all) = sends bytes w in
        let after : Writes before c bytes ((x, w'), true) = (
          record {
            connected = h.connected;
            to_come = kept ∙ h.to_come;
            written =
                all
                ∙ ap (λ l. l ++ bytes) h.written
                ∙ append_assoc before (join c.outbox) bytes
                ∙ ap (◌++◌ before) (sym (join-append c.outbox bytes));
          },
          refl,
        ) in
        subst (Writes before c bytes) (sym (methods.writes x w w' bytes h.connected runs)) after

    close-Ended :
        (before : List ℕ) (x : X) (w : W) (c : Script)
        → At before (x, w) c
        → Ended stream socket_of before (k.close (x, w)) c
    close-Ended before x w c h =
        let (ends, stays) = methods.closes x w h.connected in
        record { disconnected = ends; written = stays ∙ h.written }

    abbrev ReadsAt : List ℕ → (X × W) × Option (List ℕ) → Script × Option (List ℕ) → Type 0
    ReadsAt before = Reads (At before) (λ x c. Ended stream socket_of before (k.close x) c)

    read-Stands :
        (before : List ℕ) (x : X) (w : W) (inbox outbox : List (List ℕ))
        → At before (x, w) (record { inbox = inbox; outbox = outbox })
        → ReadsAt before (k.read (x, w) max_message) (take_chunk inbox outbox)
    read-Stands before x w [] outbox h =
        let (gives, left) = law.ends w h.to_come in
        let w' : W = (os.receive (some s) max_message w).0 in
        subst (λ r. ReadsAt before r (take_chunk [] outbox))
          (sym (methods.reads_end x w h.connected gives))
          (close-Ended before x w' (record { inbox = []; outbox = outbox })
            (record {
              connected = h.connected;
              to_come = left;
              written = law.keeps_stream w ∙ h.written;
            }))
    read-Stands before x w (chunk ∷ chunks) outbox h =
        let (some_, gives, left) = law.receives w chunk chunks h.to_come in
        subst (λ r. ReadsAt before r (take_chunk (chunk ∷ chunks) outbox))
          (sym (methods.reads_chunk x w chunk h.connected some_ gives))
          (
            record {
              connected = h.connected;
              to_come = left;
              written = law.keeps_stream w ∙ h.written;
            },
            refl,
          )

    -- The connection stands for one whose reads are the portions that `recv` gives and whose writes all
    -- succeed, and closing it changes nothing that was sent.
    pub over-IsSimulation :
        (before : List ℕ)
        → IsSimulation k
            (script always)
            (Stands s stream coming socket_of before)
            (Ended stream socket_of before)
            (λ bytes. Unit {0})
    unfolding write_script read_script
    over-IsSimulation before = record {
      writes = λ x c b bytes any h. write-Stands before (b ∷ bytes) x.0 x.1 c h;
      reads = λ x c h. read-Stands before x.0 x.1 c.inbox c.outbox h;
      closes = λ x c h. close-Ended before x.0 x.1 c h;
    }
