-- ===== src/PacketTransfer/Reassembly.antt =====
-- The reassembly of node packets by `process_one_response` of app/packet_transfer.c.
pub mod Whole
use wsn_test_platform.Shared.{
  ℕ, zero, suc, ◌+◌, ◌-◌, ◌%◌, ◌≤◌, ◌<◌, Bool, true, false, not, ◌||◌, ◌&&◌, Option, none, some,
  List, [], ◌∷◌, ◌++◌, Ret, ret_ok, ret_fail, ret_invalid_params, and_then, Run, ok, fault, Cmd,
  pure, ◌>>◌, ◌>>=◌, ◌==◌, ltb, if◌then◌else◌, get_elem?, get_or, set, take, drop, length, ◌≡◌,
  refl, sym, ap, ap₂, ◌∙◌, arith, subst, Returns, returns, Returns-and_then, Bool-cases, inl, inr,
  All, length-append, length-drop, length-take_of_le, append-nil, append_assoc,
}
use wsn_test_platform.Protocol.{Bytes, node_payload_type_resp_node_id}
use wsn_test_platform.Kernel.{System}
use wsn_test_platform.Util.{even_check}
use wsn_test_platform.GatherBoard.Guards.{gather_board_led_control-refused}
use wsn_test_platform.GatherBoard.{gather_board_led_red, gather_board_led_green, led_on}
use wsn_test_platform.DList.Positions.{delete_at}
use wsn_test_platform.DList.Client.{find_datum}
use wsn_test_platform.PacketTransfer.Buffer.{memcpy_at-append}
use wsn_test_platform.PacketTransfer.State.{
  PacketTransfer, Command, Response, PacketState, in_packet, out_packet, Machine, response_zero,
  memcpy_at,
}
use wsn_test_platform.PacketTransfer.Responses.{
  board_call, process_one_response, accepted, data_packet, handle_response,
}
use wsn_test_platform.PacketTransfer.Packets.{
  fragment_data, first_fragment, next_fragment, is_first, is_last, is_invalid, is_current,
  resp_b_get_data_len, resp_b_get_port_id, with_response, with_commands, response_find_cb,
  node_type_convert_resp_to_cmd,
}
use wsn_test_platform.PacketTransfer.Fragments.{
  IsData, Holds, not_invalid, not_current, length-fragment_data, extend, next_fragment-extend,
  extend-Holds, Inside, Complete,
}

module _ {W : Type 0} (sys : System W) where
  pub red_call :
      (b : Bool) (m : Machine W) (i : ℕ)
      → (if b
            then board_call sys (gather_board_led_red sys m.transfer.gather_board i led_on)
            else pure ret_ok)
          m
        ≡ ok (if b then ret_invalid_params else ret_ok) m
  unfolding gather_board_led_red
  red_call true m i = rw (
    board_call,
    gather_board_led_control-refused sys m.transfer.gather_board i led_on true m.world,
  )
  red_call false m i = refl

  pub green_call :
      (m : Machine W) (i : ℕ)
      → board_call sys (gather_board_led_green sys m.transfer.gather_board i led_on) m
        ≡ ok ret_invalid_params m
  unfolding gather_board_led_green
  green_call m i = rw (
    board_call,
    gather_board_led_control-refused sys m.transfer.gather_board i led_on false m.world,
  )

  -- `handle_response` where commands are pending: no LED is switched, and the deletion is at the place
  -- that the search answers.
  pub handle_response-deletes :
      (m : Machine W) (c : Command) (cs : List Command)
      → get_elem? m.transfer.command_set m.transfer.response.port_id ≡ some (c ∷ cs)
      → handle_response sys m
        ≡ ok tt (record {
          transfer =
              with_commands
                (set m.transfer.command_set m.transfer.response.port_id (
                  delete_at
                    (find_datum
                      (response_find_cb (node_type_convert_resp_to_cmd m.transfer.response.type))
                      (c ∷ cs))
                    (c ∷ cs)))
                m.transfer;
          world = m.world;
        })
  unfolding handle_response
  handle_response-deletes m c cs at = rw (
    red_call (m.transfer.response.type == node_payload_type_resp_node_id) m
        (m.transfer.response.port_id + 1),
    green_call m (m.transfer.response.port_id + 1),
    at,
  )

  data_route :
      (f : Bytes) (m : Machine W)
      → IsData f
      → process_one_response sys f m ≡ data_packet sys f m.transfer m.transfer.packet_state m
  unfolding process_one_response accepted
  data_route f m is = rw (
    is.even,
    not_invalid (get_or f 0 0) is.short,
    not_current (resp_b_get_data_len (get_or f 0 0)) is.short,
  )

  pub middle_step :
      {before : PacketTransfer} {port type : ℕ} (bs f : Bytes) (m : Machine W)
      → Inside before port type bs m.transfer
      → IsData f
      → is_last f ≡ false
      → length bs + length (fragment_data f) ≤ 256
      → Returns
          (λ ret n. Inside before port type (bs ++ fragment_data f) n.transfer)
          (process_one_response sys f m)
  unfolding data_packet
  middle_step bs f m inside is more fits =
      let h = inside.holds in
      rw
        (
          data_route f m is,
          inside.state,
          more,
          next_fragment-extend bs m.transfer.response f false h is fits,
        )
        (returns (record {
          state = refl;
          holds = extend-Holds bs m.transfer.response f false h fits;
          port_eq = inside.port_eq;
          type_eq = inside.type_eq;
          commands = inside.commands;
        }))

  pub last_step :
      {before : PacketTransfer} {port type : ℕ} (bs f : Bytes) (c : Command) (cs : List Command)
      (m : Machine W)
      → Inside before port type bs m.transfer
      → IsData f
      → is_last f ≡ true
      → length bs + length (fragment_data f) ≤ 256
      → get_elem? before.command_set port ≡ some (c ∷ cs)
      → Returns
          (λ ret n. Complete port type (bs ++ fragment_data f) n.transfer)
          (process_one_response sys f m)
  unfolding data_packet
  last_step {port} bs f c cs m inside is last fits pending =
      let h = inside.holds in
      rw
        (
          data_route f m is,
          inside.state,
          last,
          next_fragment-extend bs m.transfer.response f true h is fits,
          handle_response-deletes
              (record {
                transfer =
                    with_response (extend bs h.rest m.transfer.response f true) out_packet
                      m.transfer;
                world = m.world;
              })
              c cs
              (subst (λ p. get_elem? m.transfer.command_set p ≡ some (c ∷ cs)) (sym inside.port_eq)
                (ap (λ s. get_elem? s port) inside.commands ∙ pending)),
        )
        (returns (record {
          state = refl;
          holds = extend-Holds bs m.transfer.response f true h fits;
          port_eq = inside.port_eq;
          type_eq = inside.type_eq;
          finished = refl;
        }))

  pub first_step :
      (f : Bytes) (m : Machine W)
      → m.transfer.packet_state ≡ out_packet
      → IsData f
      → is_first f ≡ true
      → Returns
          (λ ret n.
            Inside m.transfer
              (resp_b_get_port_id (get_or f 0 0))
              (get_or f 15 0)
              (fragment_data f)
              n.transfer)
          (process_one_response sys f m)
  unfolding data_packet first_fragment
  first_step f m out is first =
      let copied =
        memcpy_at-append [] (fragment_data f) response_zero.node_packet
          (omega (arith, length-fragment_data f is, is.short)) in
      rw (data_route f m is, out, first, first_fragment, copied)
        (returns (record {
          state = refl;
          holds = record {
            len = sym (length-fragment_data f is);
            rest = drop (length (fragment_data f)) response_zero.node_packet;
            buffer = refl;
            room = omega (
              arith,
              length-drop (length (fragment_data f)) response_zero.node_packet,
              length-fragment_data f is,
              is.short,
            );
          };
          port_eq = refl;
          type_eq = refl;
          commands = refl;
        }))
