-- ===== src/Network/Buffer/Tests.antt =====
-- `ArrayBuffer` of src/network/buffer.cc at concrete inputs.
use rproxy.Base.{◌≡◌, refl, List, [], ◌∷◌, arith, ok, err, logic_error}
use rproxy.Network.Buffer.{
  Buffer, append, retrieve, retrieve_as_string, readable_bytes, ensure_writable_bytes, make_space,
  move_to_front, grow, copy_in, writable_bytes, prependable_bytes, read_range, write_range,
  read_caller, has_written, resize, retrieve_all, retrieve_all_as_string,
}
use rproxy.Network.Buffer.Invariant.{IsValid}
use rproxy.Network.Buffer.Run.{
  Op, put, skip, text, text_all, clear, step, run, spec_run, run_refines,
}

-- Six bytes of storage; "b\nc" is readable.
abbrev part_read : Buffer
part_read = record { reader = 2; writer = 5; bytes = 0 ∷ 97 ∷ 98 ∷ 10 ∷ 99 ∷ 0 ∷ [] }

part_read-IsValid : IsValid part_read
part_read-IsValid = omega arith

abbrev calls : List Op
calls =
    put (1 ∷ 2 ∷ 3 ∷ [])
    ∷ skip 9
    ∷ text 4
    ∷ put (4 ∷ 5 ∷ 6 ∷ 7 ∷ 8 ∷ 9 ∷ [])
    ∷ text_all
    ∷ clear
    ∷ []

run_moves_and_grows :
    run part_read calls
    ≡ ok []
      ∷ err logic_error
      ∷ ok (98 ∷ 10 ∷ 99 ∷ 1 ∷ [])
      ∷ ok []
      ∷ ok (2 ∷ 3 ∷ 4 ∷ 5 ∷ 6 ∷ 7 ∷ 8 ∷ 9 ∷ [])
      ∷ ok []
      ∷ []
unfolding run step append retrieve retrieve_as_string readable_bytes ensure_writable_bytes
    make_space move_to_front grow copy_in writable_bytes prependable_bytes read_range write_range
    read_caller has_written resize retrieve_all retrieve_all_as_string
run_moves_and_grows = refl

run_refines_example : run part_read calls ≡ spec_run (98 ∷ 10 ∷ 99 ∷ []) calls
run_refines_example = run_refines part_read calls part_read-IsValid (omega arith)
