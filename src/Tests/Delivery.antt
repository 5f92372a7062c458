-- ===== src/Tests/Delivery.antt =====
-- The delivery of frames at concrete ones.
use btrm.Base.{◌≡◌, none, refl, [], ◌∷◌, replicate, true, some}
use btrm.Server.Client.{ClientState, new_client, default_frame}
use btrm.Server.Delivery.{Link, send_frame, link}
use btrm.Tests.{shell, scrolled, stored}

abbrev at_start : Link
at_start = link stored some 7 (new_client 0) none default_frame

abbrev frame_built : Link
frame_built = link stored some 7 (new_client 0) (some (scrolled, default_frame)) default_frame

abbrev after_frame : Link
after_frame =
    link stored some 7 (send_frame stored some 7 0 scrolled default_frame 5 true (new_client 0)).0
      none default_frame

clear : (new_client 0).tx ≡ []
unfolding new_client
clear = refl

-- A client that shows the shell, and takes nothing off its channel.
abbrev stuck : ClientState
stuck = record (new_client 0) { tx = replicate 8 []; last_sent = (7, shell) ∷ [] }

abbrev stuck_link : Link
stuck_link = link stored some 7 stuck none shell
