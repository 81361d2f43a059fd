-- ===== src/Lib.antt =====
-- GridGooseSV runs a port of libiec61850's GOOSE and sampled values stack on the ns-3 network
-- simulator. This library models its BER coding, the MMS values that GOOSE carries, the
-- publishers of GOOSE and of sampled values, the receivers of both, the common types of IEC
-- 61850, and the applications that publish GOOSE messages and sampled values.
--
-- A publisher (model/libiec61850/src/goose/goose_publisher.cc) owns one frame buffer. Creating
-- it writes the Ethernet and GOOSE header, publishing encodes the state and the data set behind
-- the header with the BER encoder (mms/asn1/ber_encoder.cc) and the MMS encoder
-- (mms/iso_mms/server/mms_access_result.cc), in two passes: the first adds up sizes, the second
-- writes. The frame goes to the Ethernet layer
-- (model/libiec61850/hal/ethernet/ns3/ethernet.cc). A receiver (goose/goose_receiver.cc) owns a
-- list of subscribers (goose/goose_subscriber.cc). It takes the packet apart, finds the
-- subscriber for the control block reference, decodes header and data set
-- (mms/asn1/ber_decode.cc), and stores them in the subscriber with the time up to which they
-- are valid. All paths without a folder stand below model/libiec61850/src.
--
--   Prelude: lists, tests and options over native numbers, and `Outcome`, the result of a call:
--     a value, an error code (`failed`), undefined behaviour (`fault`), or fuel that ran out
--     (`stuck`).
--
--   Memory: the pair of buffer and position that encoders thread through, and what a run of
--     writes does. A write outside the buffer is a fault. `Writes w bs` says that `w` is the
--     same computation as writing the octets `bs`.
--
--   Ber.Length, Ber.Bytes, Ber.Primitive, Ber.Encoder: ber_encoder.cc and
--     asn1_ber_primitive_value.cc. A function keeps its name without the prefix, in snake case:
--     `encode_tl` is `BerEncoder_encodeTL`. The child modules say the octets of each encoding.
--
--   Ber.Decoder: ber_decode.cc, on any input and on the octets of the encoder.
--
--   Ber.Integer: mms/asn1/ber_integer.cc, machine integers as primitive values and back.
--
--   Mms.Value, Mms.Numbers, Mms.UtcTime, Mms.BitString, Mms.Encode: mms_value.cc and
--     mms_access_result.cc. The flag of `MmsValue_encodeMmsData` becomes two functions,
--     `mms_data_size` and `encode_mms_data`. Encode.Octets has the octets of a value as a list,
--     Encode.Nested sets them against the length octets of X.690.
--
--   Goose.Publisher: goose_publisher.cc, state, operations, the PDU as octets, and publishing.
--
--   Goose.Subscriber: goose_subscriber.cc and goose_receiver_internal.h, the subscriber and its
--     setters; its getters are its fields.
--
--   Goose.Receiver: goose_receiver.cc. `parse_goose_message`, `parse_goose_payload` and `tick`
--     stand in the module itself, parseAllData in DataSet and parseAllDataUnknownValue in
--     Unknown. Arrays, Fields, DataSet.Elements and the modules called Safety are about any
--     input, DataSet.Padding about the padding octets of bit strings, which the code does not
--     check, Header about a PDU that is a sequence of fields, Validity about the state of the
--     subscriber. The loop over the subscribers is a recursion on their list. The converter
--     between `float` and `double` is a parameter, `FloatConversions`.
--
--   Goose.RoundTrip: the receiver on the PDU and on the packet of the publisher, and on two
--     messages in a row.
--
--   Sv.Publisher: sampled_values/sv_publisher.cc. The ASDUs keep pointers into the frame
--     buffer, which are offsets here; the user stores samples through them between two sends.
--     Layout and Setup have the APDU as a pattern of octets with gaps for the samples, Pointers
--     the pointers into it, Values and Stores are the setters.
--
--   Sv.Subscriber: sampled_values/sv_subscriber.cc. The receive buffer is threaded through the
--     parsers, which write the terminators of the names into it; the calls of the listener are
--     a list of deliveries, each with the buffer at that time. Getters are the functions that
--     read an ASDU. Sv.RoundTrip is about values that the publisher stores and about the fields
--     of its ASDU.
--
--   Simulator: what the applications take from ns-3 and the C++ library, as parameters: the
--     event queue with its laws, `double` and `float`.
--
--   Goose.Application: model/goose-publisher-app.cc. The state of the class, the events in the
--     queue and the frames that were sent make a `World`, on which the handlers are functions.
--     Pending says what is in the queue, Messages and Progress what one handler does, and Run
--     and Ends what any sequence of handlers comes to, in whatever order the queue gives them.
--
--   Sv.Application: model/sv-publisher-app.cc in the same way. Fill is what a measurement does
--     to an ASDU, Calls the parts of the handler, Run any sequence of its calls, Start the
--     start with its children Slots, Places and Frame, and Samples what is sent from the start
--     on. The identifiers of the ASDUs are a parameter, since their strings are gone when they
--     are encoded.
--
--   Iec61850: iec61850/common/iec61850_common.cc: Timestamp, Quality with Dbpos, Constraint for
--     the functional constraints, and Names for the MMS names of object references.
--
--   Examples: the theorems at concrete inputs.
--
-- Octets are numbers below 256, a `uint32_t` is a number below 2 ^ 32 with its wrap written
-- out, a signed integer is its bit pattern. C strings are lists of characters, NULL is `none`;
-- the visible string of a value is the array that it is kept in, with its terminator, since the
-- receiver writes into it. Positions and lengths are numbers without the bound of an `int`, but
-- for the shift in the length decoder, which is tested: the theorems on the decoders ask for
-- buffers that keep the sums small, and those that write into the values of a subscriber for
-- fewer than 2 ^ 15 octets, so that the sizes of 16 bits do not wrap. The machine is little-
-- endian.
--
-- Three recursions are not structural. Each call of the length decoder starts at a later
-- position below the bound, or goes into the loop from the same position once, so the fuel 2 *
-- max + 1 is enough. The loop over the fields of a PDU moves on by two octets at least, so one
-- more than its length is enough; parse_fields is called with that, and so are the three loops
-- of the receiver of sampled values. The parser of a data set of unknown types goes on behind
-- an element or into its contents, which are shorter by two octets, so its callers give two
-- more than the length. Running out of fuel is an outcome of its own, `stuck`.
--
-- Not modelled: allocation failure and freeing of memory, sockets and callbacks of ns-3, text
-- output, the code generated by asn1c, encodeOIDToBuffer, decodeOID, the two functions on
-- variable access specifications in iec61850_common.cc, the applications that receive, and the
-- collections. The strings that name devices and the MAC address of a device come from ns-3 and
-- are parameters or left out.
pub mod Prelude
pub mod Simulator
pub mod Memory
pub mod Ber
pub mod Mms
pub mod Goose
pub mod Sv
pub mod Iec61850
pub mod Examples
