-- ===== src/DockerClient/Logs.antt =====
-- `demultiplex` and `DockerClient.logs` of src/docker_client.py. The decoding of UTF-8 with
-- replacement is Python's: a parameter.
pub mod Frames
use teslamate_watchdog.Shared.{
  ℕ, zero, suc, ◌+◌, ◌-◌, ◌*◌, ◌/◌, String, Bool, true, false, not, ◌&&◌, ◌||◌, Option, none, some,
  List, [], ◌∷◌, ◌++◌, ◌==◌, leb, length, take, drop, if◌then◌else◌,
}
use teslamate_watchdog.Shared.Text.{fstring}
use teslamate_watchdog.DockerClient.{Proxy, ok, unavailable, resolve, get_json}

abbrev pub frame_header : ℕ
frame_header = 8

-- `stream_type not in _VALID_STREAM_TYPES or header[1:4] != b"\x00\x00\x00"`, negated
unfoldable pub is_header : List ℕ → Bool
is_header (t ∷ a ∷ b ∷ c ∷ _) = leb t 2 && a == 0 && b == 0 && c == 0
is_header _ = false

-- `int.from_bytes(header[4:8], "big")`
unfoldable pub frame_size : List ℕ → ℕ
frame_size (_ ∷ _ ∷ _ ∷ _ ∷ a ∷ b ∷ c ∷ d ∷ _) = ((a * 256 + b) * 256 + c) * 256 + d
frame_size _ = 0

-- The loop of `demultiplex`: the rest of the bytes from the offset on, the offset, and the chunks
-- so far, joined. None: the fuel has run out.
unfoldable pub demultiplex_from : ℕ → List ℕ → List ℕ → ℕ → List ℕ → Option (List ℕ)
demultiplex_from zero raw rest offset chunks = none
demultiplex_from (suc fuel) raw rest offset chunks =
    let size = frame_size rest in
    let next =
      demultiplex_from fuel raw (drop (frame_header + size) rest) (offset + (frame_header + size))
        (chunks ++ take size (drop frame_header rest)) in
    if not (leb frame_header (length rest))
    then (if offset == 0 then some raw else some chunks)
    else if not (is_header rest)
    then some raw
    else next

-- The bytes that `demultiplex` decodes; each frame takes 8 bytes or more, so the length is fuel
-- enough.
unfoldable pub demultiplex_bytes : List ℕ → Option (List ℕ)
unfolding demultiplex_from
demultiplex_bytes raw = demultiplex_from (suc (length raw)) raw raw 0 []

module _ (decode : List ℕ → String) where
  -- `demultiplex`
  unfoldable pub demultiplex : List ℕ → String
  demultiplex raw = elim raw [
    | [] ↦ ""
    | b ∷ bs ↦ elim (demultiplex_bytes (b ∷ bs)) [ none ↦ "" | some bytes ↦ decode bytes ]
  ]

  -- `DockerClient.logs`, at a wall-clock time in microseconds
  unfoldable pub logs : Proxy → ℕ → String → ℕ → String
  logs proxy now configured since_seconds = elim (resolve proxy configured) [
    | none ↦ ""
    | some ref ↦
        elim (get_json (fstring ("/containers/" ∷ ref.id ∷ "/logs" ∷ []))
          (proxy.logs_reply ref.id (now / 1000000 - since_seconds))) [
            | unavailable error ↦ ""
            | ok content ↦ demultiplex content
          ]
  ]
