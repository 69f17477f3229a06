-- ===== src/Websocket/Fields.antt =====
-- The fields of `struct ntyevent` that only the websocket server has, in
-- reactor+websocket/reactor_singlecb_c1000k.c.
use hello_world.Prelude.{ℕ, List}
use hello_world.CString.{zeros}

abbrev pub ws_handshark_state : ℕ
ws_handshark_state = 0

abbrev pub ws_tranmission_state : ℕ
ws_tranmission_state = 1

pub record WsFields : Type 0 where
  pub buffer : List ℕ
  pub length_in : ℕ  -- `length`
  pub wbuffer : List ℕ
  pub wlength : ℕ
  pub sec_accept : List ℕ
  pub wsstatus : ℕ

abbrev pub buffer_length : ℕ
buffer_length = 1024

abbrev pub accept_key_length : ℕ
accept_key_length = 64

unfoldable pub zeroed_fields : WsFields
unfolding zeros
zeroed_fields = record {
  buffer = zeros buffer_length;
  length_in = 0;
  wbuffer = zeros buffer_length;
  wlength = 0;
  sec_accept = zeros accept_key_length;
  wsstatus = ws_handshark_state;
}

-- What the server takes from OpenSSL: the digest of SHA1, and the bytes that its base64 filter leaves
-- in the memory sink.
pub record Crypto : Type 0 where
  pub sha1 : List ℕ → List ℕ
  pub base64 : List ℕ → List ℕ
