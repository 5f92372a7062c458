-- ===== src/Wire/Client.antt =====
-- The message builders of crates/remote/src/lib.rs.
use btrm.Base.{ℕ, min, List, [], ◌∷◌, ◌++◌, Bytes, length, take, u16_max}
use btrm.Base.Words.{u16_to_le, u32_to_le}
use btrm.Wire.{
  c2s_input, c2s_resize, c2s_scroll, c2s_ack, c2s_display_rate, c2s_client_metrics, c2s_restart,
  c2s_create, c2s_focus, c2s_close, c2s_subscribe, c2s_unsubscribe, c2s_search, c2s_create_at,
  c2s_create_n, c2s_read, c2s_copy_range, c2s_kill, s2c_hello, s2c_exited,
}

unfoldable pub msg_hello : ℕ → ℕ → Bytes
msg_hello version features = s2c_hello ∷ (u16_to_le version ++ u32_to_le features)

-- The length of a tag as it is sent.
abbrev sent_len : Bytes → ℕ
sent_len tag = min (length tag) u16_max

abbrev sent_tag : Bytes → Bytes
sent_tag tag = u16_to_le (sent_len tag) ++ take (sent_len tag) tag

pub msg_create_tagged : ℕ → ℕ → Bytes → Bytes
msg_create_tagged rows cols tag = c2s_create ∷ (u16_to_le rows ++ (u16_to_le cols ++ sent_tag tag))

pub msg_create : ℕ → ℕ → Bytes
msg_create rows cols = msg_create_tagged rows cols []

pub msg_create_at : ℕ → ℕ → Bytes → ℕ → Bytes
msg_create_at rows cols tag src_pty_id =
    c2s_create_at ∷ (u16_to_le rows ++ (u16_to_le cols ++ (sent_tag tag ++ u16_to_le src_pty_id)))

unfoldable pub msg_create_n : ℕ → ℕ → ℕ → Bytes → Bytes
msg_create_n nonce rows cols tag =
    c2s_create_n ∷ (u16_to_le nonce ++ (u16_to_le rows ++ (u16_to_le cols ++ sent_tag tag)))

unfoldable pub msg_create_n_command : ℕ → ℕ → ℕ → Bytes → Bytes → Bytes
msg_create_n_command nonce rows cols tag command = msg_create_n nonce rows cols tag ++ command

pub msg_create_tagged_command : ℕ → ℕ → Bytes → Bytes → Bytes
msg_create_tagged_command rows cols tag command = msg_create_tagged rows cols tag ++ command

pub msg_create_command : ℕ → ℕ → Bytes → Bytes
msg_create_command rows cols command = msg_create_tagged_command rows cols [] command

pub msg_input : ℕ → Bytes → Bytes
msg_input pty_id input = c2s_input ∷ (u16_to_le pty_id ++ input)

pub msg_resize : ℕ → ℕ → ℕ → Bytes
msg_resize pty_id rows cols = c2s_resize ∷ (u16_to_le pty_id ++ (u16_to_le rows ++ u16_to_le cols))

pub resize_entries : List (ℕ × ℕ × ℕ) → Bytes
resize_entries [] = []
resize_entries ((pty_id, rows, cols) ∷ entries) =
    u16_to_le pty_id ++ (u16_to_le rows ++ (u16_to_le cols ++ resize_entries entries))

pub msg_resize_batch : List (ℕ × ℕ × ℕ) → Bytes
msg_resize_batch entries = c2s_resize ∷ resize_entries entries

pub msg_focus : ℕ → Bytes
msg_focus pty_id = c2s_focus ∷ u16_to_le pty_id

pub msg_close : ℕ → Bytes
msg_close pty_id = c2s_close ∷ u16_to_le pty_id

pub msg_kill : ℕ → ℕ → Bytes
msg_kill pty_id signal = c2s_kill ∷ (u16_to_le pty_id ++ u32_to_le signal)

pub msg_restart : ℕ → Bytes
msg_restart pty_id = c2s_restart ∷ u16_to_le pty_id

pub msg_subscribe : ℕ → Bytes
msg_subscribe pty_id = c2s_subscribe ∷ u16_to_le pty_id

pub msg_unsubscribe : ℕ → Bytes
msg_unsubscribe pty_id = c2s_unsubscribe ∷ u16_to_le pty_id

pub msg_search : ℕ → Bytes → Bytes
msg_search request_id query = c2s_search ∷ (u16_to_le request_id ++ query)

pub msg_ack : Bytes
msg_ack = c2s_ack ∷ []

pub msg_scroll : ℕ → ℕ → Bytes
msg_scroll pty_id offset = c2s_scroll ∷ (u16_to_le pty_id ++ u32_to_le offset)

pub msg_display_rate : ℕ → Bytes
msg_display_rate fps = c2s_display_rate ∷ u16_to_le fps

pub msg_client_metrics : ℕ → ℕ → ℕ → Bytes
msg_client_metrics backlog ack_ahead apply_ms_x10 =
    c2s_client_metrics ∷ (u16_to_le backlog ++ (u16_to_le ack_ahead ++ u16_to_le apply_ms_x10))

pub msg_read : ℕ → ℕ → ℕ → ℕ → ℕ → Bytes
msg_read nonce pty_id offset limit flags =
    c2s_read
    ∷ (u16_to_le nonce
        ++ (u16_to_le pty_id ++ (u32_to_le offset ++ (u32_to_le limit ++ (flags ∷ [])))))

pub msg_copy_range : ℕ → ℕ → ℕ → ℕ → ℕ → ℕ → ℕ → Bytes
msg_copy_range nonce pty_id start_tail start_col end_tail end_col flags =
    c2s_copy_range
    ∷ (u16_to_le nonce
        ++ (u16_to_le pty_id
            ++ (u32_to_le start_tail
                ++ (u16_to_le start_col
                    ++ (u32_to_le end_tail ++ (u16_to_le end_col ++ (flags ∷ [])))))))

unfoldable pub msg_exited : ℕ → ℕ → Bytes
msg_exited pty_id exit_status = s2c_exited ∷ (u16_to_le pty_id ++ u32_to_le exit_status)
