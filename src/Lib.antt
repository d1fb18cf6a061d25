-- ===== src/Lib.antt =====
-- A model of the host and of the display driver of the second-screen system, with the theorems that make
-- its parts correct. A Windows host captures a monitor, encodes it, and streams video and audio over TCP to a
-- tablet, which sends input and control messages back; a driver presents the virtual monitor.
--
-- The parts, and the files that model them:
--   Prelude: the names that every module shares, with tests, lists, integers and machine words.
--   Wire: proto/protocol.h. Each struct is a record; its packed little-endian bytes are a list of numbers below 256.
--   Net: host/src/net/server.h and server.cpp. TcpServer is the record Server; SendFrame is send_frame, ReadFrame is
--     read_frame. The socket library is the record Sockets, with the laws that TCP keeps bytes in order.
--   Nal: SplitAnnexB and HasIdrSlice of host/src/encode/nal.cpp.
--   Payload: BuildVideoPayload of host/src/main.cpp, and the container loop of NvEncoder::Encode.
--   Encode/Nvenc: the state machine of NvEncoder in host/src/encode/nvenc.cpp; a function for each operation, and the
--     answers of the NVENC library as an argument. Params has what Configure and SetBitrate hand over.
--   Encode/Qsv and Encode/Amf: QsvEncoder of host/src/encode/qsv.cpp and AmfEncoder of amf.cpp in the same manner, each with
--     Frames for Encode; Encode/Buffers has what they share, with AlignedBytes of host/src/util/aligned.h.
--   Encode/Null: NullEncoder of host/src/encode/encoder.cpp.
--   Encode/Color: BgraToNv12 of host/src/encode/color.cpp as the sequence of its writes.
--   Adapt and Scale: the adaptive resolution in the main loop of host/src/main.cpp. Adapt has the controller
--     over a parameter for the doubles; Scale has the step that resizes the encoder and picks its texture.
--   Scaler: GpuScaler of host/src/util/scaler.cpp, with the vertices of its shader.
--   Launch: the arguments of host/src/main.cpp, the monitor that they name and the choice of the encoder.
--   Session: main of host/src/main.cpp. Begin starts the components up to the loop; Loop is the loop, a function of the
--     turns, each of which has what the components report; they use the handshake, the video message and the
--     drain of the inbound frames in Session, the audio messages in Sound, and the frames that are read in
--     Inbound. Begin and Loop join Launch, Capture, Net, Inject, Audio, Scale, Adapt, Wire and Payload. The
--     outcomes of the encoder are an argument of a turn of Loop; Encoder takes them from an encoder, an
--     interface of the operations of host/src/encode/encoder.h that Frozen fills with NVENC, Pooled with AMF and
--     Raw with the encoder of raw frames; Size has the sizes that they are configured for.
--   Capture: ScreenCapture of host/src/capture/capture.cpp; what DXGI reports is an argument of each call.
--   Audio: host/src/audio. Thread is the life of the capture thread, Convert, Resampler and Queue
--     are the path of a packet and Rounds joins them, in capture.cpp; Adts is the framing,
--     the Encode loop and the choice of an output type of aac.cpp, and Aac the life of AacEncoder.
--   Inject: InputInjector of host/src/input/inject.cpp; the calls of the Windows input functions are a list.
--   Driver: driver/src/Driver.cpp. Edid and Modes are what the monitor reports, Options reads option.txt, Consumer is the thread of a
--     swap-chain, Chains the maps of processors and of devices with what they stand for, Processor
--     their life, and Adapter the entry points and the callbacks.
--   Examples: runs at concrete inputs, which also show that the conditions of the theorems can hold.
--
-- Numbers are natural numbers; unsigned arithmetic of the source that can wrap has its remainder written out, and
-- casts to int of 32-bit lengths keep their sign. Doubles are a parameter in Adapt, exact fractions in
-- the resampler and in the scale factors, which are multiples of an eighth. The float audio format goes
-- through a parameter.
--
-- Loops on fuel: recv_loop and send_loop take the number of bytes as fuel, since each round moves at
-- least one; the inbound loop of main takes one round more than the bytes that can still be received; AMF's submit_loop has the 30 tries of its source; the container loop and the Annex B scan take the length of the buffer, since each round advances.
-- The gcd recurses on a proof of accessibility.
--
-- Not modelled: Direct3D, DXGI, WASAPI, Media Foundation, the Media SDK, AMF and IddCx beyond what they report to a call;
-- threads, whose shared state is changed under its lock in whole steps; logging; what
-- the captured textures show; the tablet application.
pub mod Prelude
pub mod Wire
pub mod Nal
pub mod Payload
pub mod Net
pub mod Adapt
pub mod Scale
pub mod Scaler
pub mod Capture
pub mod Audio
pub mod Driver
pub mod Inject
pub mod Launch
pub mod Session
pub mod Encode
pub mod Examples
