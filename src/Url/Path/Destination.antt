-- ===== src/Url/Path/Destination.antt =====
-- Where a path leads that `normalize` of url.cpp has written.
use social_network.Url.Model.{Url}
