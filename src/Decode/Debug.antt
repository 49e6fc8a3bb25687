-- ===== src/Decode/Debug.antt =====
-- The heartbeat, print, event, watch and status frames: the first branches of `decodeFrame` in
-- tools/viewer/web/app.js.
use open_fpgastudio.Base.{ℕ, List, ◌++◌}
use open_fpgastudio.Base.Texts.{codes, hex}
use open_fpgastudio.Wire.{u16, u32, byte_at}
use open_fpgastudio.State.Tables.{type_text, level_text}
use open_fpgastudio.State.Render.{View}
use open_fpgastudio.State.{
  Viewer, number, text, dash, log_row, request_render, add_log, update_watch, update_event,
}

unfoldable pub heartbeat : List ℕ → Viewer → Viewer
unfolding add_log
heartbeat payload s =
    let timestamp = u32 payload 0 in
    let logged =
      add_log (log_row (number timestamp) (type_text 0x01) (codes "-") dash (codes "Heartbeat"))
        s in
    request_render View.status
      (record logged { status = record logged.status { last_timestamp = number timestamp } })

unfoldable pub debug_print : List ℕ → Viewer → Viewer
unfolding add_log
debug_print payload s =
    let print_id = hex (u16 payload 4) 4 in
    let args = hex (u32 payload 6) 8 ++ codes ", " ++ hex (u32 payload 10) 8 in
    add_log
      (log_row (number (u32 payload 0)) (type_text 0x02) print_id (text args)
        (codes "print " ++ print_id))
      s

unfoldable pub event_frame : List ℕ → Viewer → Viewer
unfolding add_log update_event
event_frame payload s =
    let event_id = u16 payload 4 in
    let level = byte_at payload 6 in
    let arg0 = u32 payload 7 in
    add_log
      (log_row (number (u32 payload 0)) (type_text 0x03) (hex event_id 4) (text (hex arg0 8))
        (level_text level))
      (update_event event_id level arg0 s)

unfoldable pub watch_frame : List ℕ → Viewer → Viewer
unfolding add_log update_watch
watch_frame payload s =
    let timestamp = u32 payload 0 in
    let watch_id = u16 payload 4 in
    let value = u32 payload 6 in
    add_log
      (log_row (number timestamp) (type_text 0x04) (hex watch_id 4) (text (hex value 8))
        (codes "watch update"))
      (update_watch watch_id value timestamp s)

unfoldable pub status_frame : List ℕ → Viewer → Viewer
unfolding add_log
status_frame payload s =
    let timestamp = u32 payload 0 in
    let updated : Viewer = record s {
      status = record {
        buffer_used = number (u16 payload 4);
        drop_count = number (u16 payload 6);
        packet_count = number (u16 payload 8);
        last_timestamp = number timestamp;
      };
    } in
    request_render View.status (
      add_log (log_row (number timestamp) (type_text 0x05) (codes "-") dash (codes "status update"))
        updated)
