-- ===== src/Wire.antt =====
-- The wire protocol of crates/remote/src/lib.rs: the message tags and the messages that a server
-- sends. `Wire/Client` builds what a client sends, `Wire/Server` what a server sends, and
-- `Wire/Parse` is the client's parser. A `&str` is its bytes, an `i32` its bit pattern.
pub mod Client
pub mod Server
pub mod Parse
use btrm.Base.{ℕ, Bytes, List, Option}

abbrev pub c2s_input : ℕ
c2s_input = 0x00

abbrev pub c2s_resize : ℕ
c2s_resize = 0x01

abbrev pub c2s_scroll : ℕ
c2s_scroll = 0x02

abbrev pub c2s_ack : ℕ
c2s_ack = 0x03

abbrev pub c2s_display_rate : ℕ
c2s_display_rate = 0x04

abbrev pub c2s_client_metrics : ℕ
c2s_client_metrics = 0x05

abbrev pub c2s_mouse : ℕ
c2s_mouse = 0x06

abbrev pub c2s_restart : ℕ
c2s_restart = 0x07

abbrev pub c2s_create : ℕ
c2s_create = 0x10

abbrev pub c2s_focus : ℕ
c2s_focus = 0x11

abbrev pub c2s_close : ℕ
c2s_close = 0x12

abbrev pub c2s_subscribe : ℕ
c2s_subscribe = 0x13

abbrev pub c2s_unsubscribe : ℕ
c2s_unsubscribe = 0x14

abbrev pub c2s_search : ℕ
c2s_search = 0x15

abbrev pub c2s_create_at : ℕ
c2s_create_at = 0x16

abbrev pub c2s_create_n : ℕ
c2s_create_n = 0x17

abbrev pub c2s_create2 : ℕ
c2s_create2 = 0x18

abbrev pub c2s_read : ℕ
c2s_read = 0x19

abbrev pub c2s_copy_range : ℕ
c2s_copy_range = 0x1b

abbrev pub c2s_kill : ℕ
c2s_kill = 0x1a

abbrev pub s2c_update : ℕ
s2c_update = 0x00

abbrev pub s2c_created : ℕ
s2c_created = 0x01

abbrev pub s2c_closed : ℕ
s2c_closed = 0x02

abbrev pub s2c_list : ℕ
s2c_list = 0x03

abbrev pub s2c_title : ℕ
s2c_title = 0x04

abbrev pub s2c_search_results : ℕ
s2c_search_results = 0x05

abbrev pub s2c_created_n : ℕ
s2c_created_n = 0x06

abbrev pub s2c_hello : ℕ
s2c_hello = 0x07

abbrev pub s2c_exited : ℕ
s2c_exited = 0x08

abbrev pub s2c_ready : ℕ
s2c_ready = 0x09

abbrev pub s2c_text : ℕ
s2c_text = 0x0a

pub record PtyListEntry : Type 0 where
  pub pty_id : ℕ
  pub tag : Bytes
  pub command : Bytes

pub record SearchResultEntry : Type 0 where
  pub pty_id : ℕ
  pub score : ℕ
  pub primary_source : ℕ
  pub matched_sources : ℕ
  pub scroll_offset : Option ℕ
  pub context : Bytes

-- `hello version features`, `update pty_id payload`, `created pty_id tag`,
-- `created_n nonce pty_id tag`, `exited pty_id exit_status`, `title pty_id title`,
-- `search_results request_id results`, `text nonce pty_id total_lines offset text`.
pub data ServerMsg : Type 0 where
  hello : ℕ → ℕ → ServerMsg
  update : ℕ → Bytes → ServerMsg
  created : ℕ → Bytes → ServerMsg
  created_n : ℕ → ℕ → Bytes → ServerMsg
  closed : ℕ → ServerMsg
  exited : ℕ → ℕ → ServerMsg
  list : List PtyListEntry → ServerMsg
  title : ℕ → Bytes → ServerMsg
  search_results : ℕ → List SearchResultEntry → ServerMsg
  ready : ServerMsg
  text : ℕ → ℕ → ℕ → ℕ → Bytes → ServerMsg
