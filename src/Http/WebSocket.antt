-- ===== src/Http/WebSocket.antt =====
-- src/classes/ION/HTTP/WebSocket/Frame.c and src/classes/ION/HTTP/WebSocketParser.c. The websocket_parser is a
-- parameter: the calls that it makes for a text, its masking, and the bytes it builds of a frame.
pub mod Frame
pub mod Parser
pub mod Blocks
pub mod Delivery
pub mod Frames
