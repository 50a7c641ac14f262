-- ===== src/Client/Duel/Tests.antt =====
-- A match to a tenth of a pixel, and the theorems on two games at it.
use pong_pp.Common.{
  ℕ, ◌+◌, ◌^◌, ◌≤◌, ◌<◌, ◌≡◌, refl, true, false, some, List, [], ◌∷◌, codes, arith,
}
use pong_pp.Common.Int.{ℤ, pos, negsuc}
use pong_pp.Client.Wire.{message, signed, fields, int_to_str, low_digits, backwards}
use pong_pp.Client.FixedPoint.{fixed_point, fixed_point-IsFloat}
use pong_pp.Client.FixedPoint.Bounds.{fixed_point-HasBounds}
use pong_pp.Client.Game.{Game, clampf, home, reset_ball, start_game}
use pong_pp.Client.Ball.{
  simulate_ball, left_paddle, right_paddle, bottom_wall, top_wall, move_ball, score,
  try_paddle_collide, misses,
}
use pong_pp.Client.Paddle.{move_local_paddle, moved_x, moved_y}
use pong_pp.Client.Tick.{tick}
use pong_pp.Client.Peer.{send_state}
use pong_pp.Client.Screen.{render, dashes, drawing, score_text}
use pong_pp.Client.Range.Tick.{Plays}
use pong_pp.Client.Duel.{
  back, still, forth, Duel, Move, open_host, open_guest, host_frame, move, play, peer_send, kickoff,
  host_frames,
}
use pong_pp.Client.Duel.Sound.{AreShort, play_lem}
use pong_pp.Client.Duel.Drain.{Mirrors, Follows}
use pong_pp.Client.Duel.Settled.{settle, settled}

-- The game of an earlier match.
abbrev earlier : Game ℤ
earlier = record {
  in_game = false;
  role = pos 1;
  serve_seed = 3;
  ball_x = pos 7985;
  ball_y = pos 1000;
  ball_vx = pos 50;
  ball_vy = negsuc 29;
  left_x = pos 240;
  left_y = pos 2550;
  right_x = pos 7640;
  right_y = pos 2550;
  left_vx = pos 0;
  right_vx = negsuc 39;
  left_score = pos 2;
  right_score = pos 1;
}

abbrev moves : List Move
moves = open_host ∷ open_guest ∷ host_frame forth still ∷ []

-- Both games after these moves, with a snapshot on its way.
abbrev started : Game ℤ
started = record {
  in_game = true;
  role = pos 0;
  serve_seed = 4;
  ball_x = pos 3930;
  ball_y = pos 2930;
  ball_vx = pos 50;
  ball_vy = pos 30;
  left_x = pos 240;
  left_y = pos 2550;
  right_x = pos 7640;
  right_y = pos 2550;
  left_vx = pos 0;
  right_vx = pos 0;
  left_score = pos 0;
  right_score = pos 0;
}

abbrev under_way : Duel ℤ
under_way = record {
  host = record started {
    ball_x = pos 3980;
    ball_y = pos 2960;
    left_x = pos 280;
    left_vx = pos 40;
  };
  guest = record started { role = pos 1; ball_vx = negsuc 49 };
  host_open = true;
  guest_open = true;
  to_guest = codes "S 398 296 28 255 764 255 0 0" ∷ [];
  to_host = [];
}

played : play moves (some (kickoff earlier earlier)) ≡ some under_way
unfolding play move peer_send start_game home reset_ball clampf tick move_local_paddle moved_x
    moved_y simulate_ball left_paddle right_paddle bottom_wall top_wall move_ball score
    try_paddle_collide misses render dashes drawing score_text int_to_str low_digits backwards
    signed send_state message fields
played = refl

play_lem_example :
    (d : Duel ℤ) × (l : ℕ) × (r : ℕ) × (l' : ℕ) × (r' : ℕ) × (play moves
        (some (kickoff earlier earlier))
      ≡ some d)
    × Plays fixed_point-IsFloat fixed_point-HasBounds 0 l r d.host
    × Plays fixed_point-IsFloat fixed_point-HasBounds 1 l' r' d.guest
    × (d.host.serve_seed < 2 ^ 31)
    × (d.guest.serve_seed ≡ 4)
    × (l + r ≤ host_frames moves)
    × (l' ≤ l)
    × (r' ≤ r)
    × AreShort d.to_guest
    × AreShort d.to_host
unfolding host_frames
play_lem_example =
    play_lem fixed_point-IsFloat fixed_point-HasBounds moves earlier earlier (omega arith)
      (omega arith) (omega arith)

settled_example :
    (d : Duel ℤ) × (play (settle back still still forth under_way) (some under_way) ≡ some d)
    × (d.to_guest ≡ [])
    × (d.to_host ≡ [])
    × Mirrors d.host d.guest
    × Follows d.guest d.host
unfolding host_frames
settled_example =
    settled fixed_point-IsFloat fixed_point-HasBounds moves earlier earlier under_way back still
      still forth (omega arith) played refl refl
