-- ===== src/Pipe.antt =====
-- The wire format between ap_ipc_server.cpp and ap_ipc_client.cpp: a message is its JSON text
-- behind its length in four bytes, the lowest first.
pub mod Laws
pub mod Server
pub mod Client
use apf_ue4ss.Prelude.{
  ℕ, ◌+◌, ◌*◌, ◌/◌, ◌%◌, String, Option, none, some, List, [], ◌∷◌, ◌++◌, length, take, drop, ltb,
  if◌then◌else◌, ◌>>=◌, ◌≡◌,
}
use apf_ue4ss.Types.Json.{JsonOps}
use apf_ue4ss.Types.Message.{IpcMessage, to_json, from_json}

-- What the code uses of the text form of nlohmann::json, in bytes. `dump` is `none` where it
-- throws (a string that is no UTF-8), `parse` where the text is no JSON.
pub record JsonText (J : Type 0) : Type 0 where
  pub dump : J → Option (List ℕ)
  pub parse : List ℕ → Option J

-- 2^32, the modulus of uint32_t and DWORD.
abbrev pub word : ℕ
word = 4294967296

-- The size of the read buffer on either side.
abbrev pub buffer_size : ℕ
buffer_size = 65536

-- `memcpy(buffer.data(), &length, 4)`.
unfoldable pub length_prefix : ℕ → List ℕ
length_prefix n = n % 256 ∷ n / 256 % 256 ∷ n / 65536 % 256 ∷ n / 16777216 % 256 ∷ []

-- `memcpy(&msg_length, buffer.data(), 4)`, of a buffer that has four bytes.
unfoldable pub msg_length : List ℕ → ℕ
msg_length (a ∷ b ∷ c ∷ d ∷ rest) = a + 256 * b + 65536 * c + 16777216 * d
msg_length bytes = 0

-- The message of `queue_write` and `send_message` for a text: `none` where `4 + length` wraps, and
-- the second memcpy writes behind the buffer.
unfoldable pub frame : List ℕ → Option (List ℕ)
unfolding length_prefix
frame json_str =
    let n = length json_str % word in
    if ltb (4 + n) word then some (length_prefix n ++ take n json_str) else none

pub data Received : Type 0 where
  too_short incomplete out_of_bounds : Received
  content : List ℕ → Received

-- The head of `process_received_data`: `4 + msg_length` is computed in 32 bits, and the text is
-- then copied out of the read buffer, or from behind it.
unfoldable pub extract : List ℕ → ℕ → Received
unfolding msg_length
extract read_buffer bytes_received =
    let n = msg_length read_buffer in
    if ltb bytes_received 4
    then too_short
    else if ltb bytes_received ((4 + n) % word)
    then incomplete
    else if ltb (length read_buffer) (4 + n)
    then out_of_bounds
    else content (take n (drop 4 read_buffer))

module _ {J : Type 0} ⦃ops : JsonOps J⦄ (texts : JsonText J) where
  -- The bytes that are written for a message; `none` where nothing is written.
  unfoldable pub encode : IpcMessage J → Option (List ℕ)
  unfolding to_json frame
  encode message = do json_str ← texts.dump (to_json message); frame json_str

  -- The message in a text; `none` is the caught exception.
  unfoldable pub decode : List ℕ → Option (IpcMessage J)
  unfolding from_json
  decode json_str = do j ← texts.parse json_str; from_json j
