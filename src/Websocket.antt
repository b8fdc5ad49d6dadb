-- ===== src/Websocket.antt =====
-- The websocket connection, agent/internal/wsclient/client.go: the assembling of a message out of
-- frames (Reading), which messages are read (Fragments), and the frames as bytes (Frames, RoundTrip).
pub mod Reading
pub mod Fragments
pub mod Frames
pub mod RoundTrip
