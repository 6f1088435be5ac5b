-- ===== src/DockerClient/Logs/Frames.antt =====
-- A log stream that Docker has framed, taken apart again.
use mathlib.Core.List.{append-nil, append_assoc}
use teslamate_watchdog.Shared.{
  ℕ, zero, suc, ◌+◌, ◌/◌, ◌%◌, ◌≤◌, ◌<◌, ◌≡◌, ap, ◌∙◌, ◌≢◌, true, none, some, List, [], ◌∷◌, ◌++◌,
  arith, leb, length, length-append, take, drop, take-append, drop-append, length-drop, All,
}
use teslamate_watchdog.DockerClient.Logs.{
  frame_header, is_header, frame_size, demultiplex_from, demultiplex_bytes,
}

-- The loop never runs out of fuel: every round passes a header.
demultiplex_from-total :
    (fuel : ℕ) (raw rest : List ℕ) (offset : ℕ) (chunks : List ℕ)
    → length rest < fuel
    → demultiplex_from fuel raw rest offset chunks ≢ none
unfolding demultiplex_from
demultiplex_from-total zero raw rest offset chunks h = elim h [ ]
demultiplex_from-total (suc fuel) raw rest offset chunks h = ground (
  arith,
  length-drop (frame_header + frame_size rest) rest,
  demultiplex_from-total fuel raw (drop (frame_header + frame_size rest) rest)
      (offset + (frame_header + frame_size rest))
      (chunks ++ take (frame_size rest) (drop frame_header rest)),
)

-- The fuel of demultiplexing is enough for every stream of bytes.
pub demultiplex_bytes-total : (raw : List ℕ) → demultiplex_bytes raw ≢ none
unfolding demultiplex_bytes
demultiplex_bytes-total raw = demultiplex_from-total (suc (length raw)) raw raw 0 [] (omega arith)

-- the stream type of a frame, and its payload
abbrev pub Frame : Type 0
Frame = ℕ × List ℕ

abbrev pub IsFrame : Frame → Type 0
IsFrame (t, payload) = (t ≤ 2) × (length payload < 4294967296)

-- a frame as Docker writes it: the type, three zeros, and the size in four bytes, high byte first
abbrev pub framed : Frame → List ℕ
framed (t, payload) =
    let n = length payload in
    t ∷ 0 ∷ 0 ∷ 0 ∷ (n / 16777216) ∷ (n / 65536 % 256) ∷ (n / 256 % 256) ∷ (n % 256) ∷ payload

abbrev pub stream : List Frame → List ℕ
stream [] = []
stream (f ∷ fs) = framed f ++ stream fs

abbrev pub payloads : List Frame → List ℕ
payloads [] = []
payloads ((_, payload) ∷ fs) = payload ++ payloads fs

frame_size-framed :
    (f : Frame) (rest : List ℕ) → IsFrame f → frame_size (framed f ++ rest) ≡ length f.1
unfolding frame_size
frame_size-framed (t, payload) rest h = omega arith

is_header-framed : (f : Frame) (rest : List ℕ) → IsFrame f → is_header (framed f ++ rest) ≡ true
unfolding is_header
is_header-framed (t, payload) rest h = ground arith

drop_header :
    (f : Frame) (rest : List ℕ) (n : ℕ)
    → drop (frame_header + n) (framed f ++ rest) ≡ drop n (f.1 ++ rest)
drop_header f rest n =
    let e : 8 + n ≡ suc (suc (suc (suc (suc (suc (suc (suc n))))))) = omega arith in rw e

long_enough : (f : Frame) (rest : List ℕ) → leb frame_header (length (framed f ++ rest)) ≡ true
long_enough f rest = ground arith

-- one round of the loop, on a whole frame
demultiplex_from-framed :
    (fuel : ℕ) (raw : List ℕ) (f : Frame) (rest : List ℕ) (offset : ℕ) (chunks : List ℕ)
    → IsFrame f
    → demultiplex_from (suc fuel) raw (framed f ++ rest) offset chunks
      ≡ demultiplex_from fuel raw rest (offset + (frame_header + length f.1)) (chunks ++ f.1)
unfolding demultiplex_from
demultiplex_from-framed fuel raw f rest offset chunks h = rw (
  long_enough f rest,
  is_header-framed f rest h,
  frame_size-framed f rest h,
  drop_header f rest (length f.1),
  drop-append f.1 rest,
  take-append f.1 rest,
)

demultiplex_from-stream :
    (fuel : ℕ) (raw : List ℕ) (fs : List Frame) (offset : ℕ) (chunks : List ℕ)
    → All IsFrame fs
    → 0 < offset
    → length (stream fs) < fuel
    → demultiplex_from fuel raw (stream fs) offset chunks ≡ some (chunks ++ payloads fs)
demultiplex_from-stream zero raw fs offset chunks h pos enough = elim enough [ ]
demultiplex_from-stream (suc fuel) raw [] offset chunks h pos enough =
    unfold demultiplex_from in rw append-nil (ground arith)
demultiplex_from-stream (suc fuel) raw ((t, payload) ∷ fs) offset chunks h pos enough =
    rw (demultiplex_from-framed fuel raw (t, payload) (stream fs) offset chunks h.0) (
      demultiplex_from-stream fuel raw fs (offset + (frame_header + length payload))
        (chunks ++ payload) h.1 (omega arith) (omega (arith, length-append {0} payload (stream fs)))
      ∙ ap some (append_assoc chunks payload (payloads fs)))

-- One or more frames, each of a valid type and with a size of four bytes, are taken apart into
-- their payloads in order.
pub demultiplex_bytes-stream :
    (f : Frame) (fs : List Frame)
    → All IsFrame (f ∷ fs)
    → demultiplex_bytes (stream (f ∷ fs)) ≡ some (payloads (f ∷ fs))
unfolding demultiplex_bytes
demultiplex_bytes-stream f fs h =
    let raw = stream (f ∷ fs) in
    demultiplex_from-framed (length raw) raw f (stream fs) 0 [] h.0
    ∙ demultiplex_from-stream (length raw) raw fs (0 + (frame_header + length f.1)) f.1 h.1
        (omega arith) (omega (arith, length-append {0} (framed f) (stream fs)))
